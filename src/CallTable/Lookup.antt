-- ===== src/CallTable/Lookup.antt =====
-- The table as a finite map from call ids to objects.
use telephony_call_manager_m.Prelude.{
  ℕ, ◌<◌, ◌≡◌, refl, sym, ap, subst, ◌∙◌, true, false, none, some, List, [], ◌∷◌, ◌++◌, arith,
  Bool-cases, inl, inr, length, if◌then◌else◌,
}
use telephony_call_manager_m.Prelude.Eq.{◌==◌, ==→≡, ==_refl}
use telephony_call_manager_m.Prelude.Int.{ℤ, int_eq}
use telephony_call_manager_m.Prelude.Search.{find_if, erase_first}
use telephony_call_manager_m.CallTable.{
  CallTable, id_of, add_one_call_object, append_call, delete_one_call_object, is_ecc_at, limit_for,
}
use telephony_call_manager_m.CallTable.Queries.{get_one_call_object}
use telephony_call_manager_m.CallTable.Reserve.{Fresh, Distinct, Inv}
use telephony_call_manager_m.CallTable.Steps.{add_one_call_object-Added}

Fresh-find_if :
    (id_at : ℕ → ℤ) (id : ℤ) (ps : List ℕ)
    → Fresh id_at id ps
    → find_if (λ q. id_at q == id) ps ≡ none
unfolding find_if
Fresh-find_if id_at id [] f = refl
Fresh-find_if id_at id (p ∷ ps) f = elim (Bool-cases (id_at p == id)) [
  | inl e ↦ absurd (f.0 (==→≡ (id_at p) id e))
  | inr e ↦ rw e (Fresh-find_if id_at id ps f.1)
]

find_if-snoc :
    (id_at : ℕ → ℤ) (id : ℤ) (ps : List ℕ) (p : ℕ)
    → Fresh id_at (id_at p) ps
    → find_if (λ q. id_at q == id) (ps ++ (p ∷ []))
      ≡ (if id_at p == id then some p else find_if (λ q. id_at q == id) ps)
unfolding find_if
find_if-snoc id_at id [] p f = refl
find_if-snoc id_at id (q ∷ ps) p f = elim (Bool-cases (id_at q == id)) [
  | inl e ↦ elim (Bool-cases (id_at p == id)) [
    | inl g ↦ absurd (f.0 (==→≡ (id_at q) id e ∙ sym (==→≡ (id_at p) id g)))
    | inr g ↦ rw (e, g)
  ]
  | inr e ↦ rw e (find_if-snoc id_at id ps p f.1)
]

-- A call with a new id, added to a table with room for its kind, is the one found under its id; every
-- other id finds what it found before.
pub get_one_call_object-add :
    (p : ℕ) (t : CallTable) (id : ℤ)
    → Fresh (id_of t) (id_of t p) t.calls
    → length t.calls < limit_for (is_ecc_at t p)
    → get_one_call_object id (add_one_call_object (some p) t).0
      ≡ (if id_of t p == id then some p else get_one_call_object id t)
get_one_call_object-add p t id fresh room = elim (add_one_call_object-Added p t) [
  | inl (old, _) ↦ absurd (old fresh)
  | inr (inl (_, full, _)) ↦ absurd (omega arith)
  | inr (inr (_, _, e)) ↦
      rw e (unfold get_one_call_object append_call in find_if-snoc (id_of t) id t.calls p fresh)
]

absurd_ids : (a b c : ℤ) → (a == b) ≡ false → (a == c) ≡ true → (b == c) ≡ true → ⊥
absurd_ids a b c miss e g = cc (miss, ap (λ k. a == k) (==→≡ a c e ∙ sym (==→≡ b c g)), ==_refl a)

-- The first object is the one that goes: the others have other ids.
find_if-tail :
    (id_at : ℕ → ℤ) (id : ℤ) (p : ℕ) (ps : List ℕ)
    → Fresh id_at (id_at p) ps
    → find_if (λ q. id_at q == id) ps
      ≡ (if id_at p == id then none else find_if (λ q. id_at q == id) (p ∷ ps))
unfolding find_if
find_if-tail id_at id p ps f = elim (Bool-cases (id_at p == id)) [
  | inl e ↦ rw e (
      subst (λ k. find_if (λ q. id_at q == k) ps ≡ none) (==→≡ (id_at p) id e)
        (Fresh-find_if id_at (id_at p) ps f))
  | inr e ↦ rw e
]

find_if-erase_first :
    (id_at : ℕ → ℤ) (gone id : ℤ) (ps : List ℕ)
    → Distinct id_at ps
    → find_if (λ q. id_at q == id) (erase_first (λ q. id_at q == gone) ps)
      ≡ (if gone == id then none else find_if (λ q. id_at q == id) ps)
unfolding find_if erase_first
find_if-erase_first id_at gone id [] d = elim (Bool-cases (gone == id)) [
  | inl e ↦ rw e
  | inr e ↦ rw e
]
find_if-erase_first id_at gone id (p ∷ ps) d = elim (Bool-cases (id_at p == gone)) [
  | inl hit ↦ rw hit (
      subst
        (λ k.
          find_if (λ q. id_at q == id) ps
          ≡ (if k == id then none else find_if (λ q. id_at q == id) (p ∷ ps)))
        (==→≡ (id_at p) gone hit) (find_if-tail id_at id p ps d.0))
  | inr miss ↦ rw miss (elim (Bool-cases (id_at p == id)) [
    | inl e ↦ rw e (elim (Bool-cases (gone == id)) [
      | inl g ↦ absurd (absurd_ids (id_at p) gone id miss e g)
      | inr g ↦ rw g
    ])
    | inr e ↦ rw e (find_if-erase_first id_at gone id ps d.1)
  ])
]

-- In a table that satisfies the invariant a deleted id finds nothing afterwards, and every other id
-- finds what it found before.
pub get_one_call_object-delete :
    (gone id : ℤ) (t : CallTable)
    → Inv t
    → get_one_call_object id (delete_one_call_object gone t).0
      ≡ (if gone == id then none else get_one_call_object id t)
unfolding get_one_call_object delete_one_call_object
get_one_call_object-delete gone id t v = find_if-erase_first (id_of t) gone id t.calls v.distinct
