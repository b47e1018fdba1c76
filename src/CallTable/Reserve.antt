-- ===== src/CallTable/Reserve.antt =====
-- The table's invariant: distinct call ids, the size limit, and the slot kept for emergency calls.
use telephony_call_manager_m.Prelude.{
  ℕ, ◌≤◌, ◌<◌, ◌≡◌, ◌≢◌, refl, sym, ◌∙◌, ap, Bool, false, not, List, [], ◌∷◌, ◌++◌, arith,
  Bool-cases, inl, inr, length,
}
use telephony_call_manager_m.Prelude.Eq.{◌==◌, nat_eq, ==→≡}
use telephony_call_manager_m.Prelude.Int.{ℤ, int_eq}
use telephony_call_manager_m.Prelude.Search.{
  All, All-append, All-erase_first, All-remove_if, All-mono, any_if, count_if, count_if-congr,
  erase_first, remove_if,
}
use telephony_call_manager_m.Call.{Call}
use telephony_call_manager_m.CallTable.{CallTable, id_of, is_ecc_at, max_call_objects}

-- The objects of the list have different ids.
abbrev pub Fresh : (ℕ → ℤ) → ℤ → List ℕ → Type 0
Fresh id_at id = All (λ q. id_at q ≢ id)

abbrev pub Distinct : (ℕ → ℤ) → List ℕ → Type 0
Distinct id_at [] = Unit
Distinct id_at (p ∷ ps) = Fresh id_at (id_at p) ps × Distinct id_at ps

abbrev pub ordinary_calls : CallTable → ℕ
ordinary_calls t = count_if (λ p. not (is_ecc_at t p)) t.calls

pub record Inv (t : CallTable) : Type 0 where
  pub distinct : Distinct (id_of t) t.calls
  pub bounded : length t.calls ≤ max_call_objects
  pub reserved : ordinary_calls t ≤ 4
  pub allocated : All (λ p. p < t.next) t.calls

pub any_if-Fresh :
    (id_at : ℕ → ℤ) (id : ℤ) (ps : List ℕ)
    → any_if (λ q. id_at q == id) ps ≡ false
    → Fresh id_at id ps
unfolding any_if
any_if-Fresh id_at id [] h = tt
any_if-Fresh id_at id (p ∷ ps) h = elim (Bool-cases (id_at p == id)) [
  | inl e ↦ ground arith
  | inr e ↦ (λ same. ground (arith, same), any_if-Fresh id_at id ps (rw e at h))
]

pub Fresh-any_if :
    (id_at : ℕ → ℤ) (id : ℤ) (ps : List ℕ)
    → Fresh id_at id ps
    → any_if (λ q. id_at q == id) ps ≡ false
unfolding any_if
Fresh-any_if id_at id [] f = refl
Fresh-any_if id_at id (p ∷ ps) f = elim (Bool-cases (id_at p == id)) [
  | inl e ↦ absurd (f.0 (==→≡ (id_at p) id e))
  | inr e ↦ rw e (Fresh-any_if id_at id ps f.1)
]

pub Distinct-append :
    (id_at : ℕ → ℤ) (ps : List ℕ) (p : ℕ)
    → Distinct id_at ps
    → Fresh id_at (id_at p) ps
    → Distinct id_at (ps ++ (p ∷ []))
Distinct-append id_at [] p d f = (tt, tt)
Distinct-append id_at (q ∷ ps) p d f =
    (All-append _ ps (p ∷ []) d.0 (λ e. f.0 (sym e), tt), Distinct-append id_at ps p d.1 f.1)

pub Distinct-erase_first :
    (id_at : ℕ → ℤ) (test : ℕ → Bool) (ps : List ℕ)
    → Distinct id_at ps
    → Distinct id_at (erase_first test ps)
unfolding erase_first
Distinct-erase_first id_at test [] d = tt
Distinct-erase_first id_at test (p ∷ ps) d = elim (Bool-cases (test p)) [
  | inl e ↦ rw e d.1
  | inr e ↦ rw e (All-erase_first _ test ps d.0, Distinct-erase_first id_at test ps d.1)
]

pub Distinct-remove_if :
    (id_at : ℕ → ℤ) (test : ℕ → Bool) (ps : List ℕ)
    → Distinct id_at ps
    → Distinct id_at (remove_if test ps)
unfolding remove_if
Distinct-remove_if id_at test [] d = tt
Distinct-remove_if id_at test (p ∷ ps) d = elim (Bool-cases (test p)) [
  | inl e ↦ rw e (Distinct-remove_if id_at test ps d.1)
  | inr e ↦ rw e (All-remove_if _ test ps d.0, Distinct-remove_if id_at test ps d.1)
]

-- Objects that keep their id and their emergency mark.
abbrev pub Kept : (ℕ → Call) → (ℕ → Call) → ℕ → Type 0
Kept h h' p = ((h' p).call_id ≡ (h p).call_id) × ((h' p).is_ecc ≡ (h p).is_ecc)

Fresh-congr :
    (h h' : ℕ → Call) (id id' : ℤ) (ps : List ℕ)
    → id' ≡ id
    → All (Kept h h') ps
    → Fresh (λ p. (h p).call_id) id ps
    → Fresh (λ p. (h' p).call_id) id' ps
Fresh-congr h h' id id' [] e k f = tt
Fresh-congr h h' id id' (p ∷ ps) e k f =
    (λ same. f.0 (sym k.0.0 ∙ same ∙ e), Fresh-congr h h' id id' ps e k.1 f.1)

Distinct-congr :
    (h h' : ℕ → Call) (ps : List ℕ)
    → All (Kept h h') ps
    → Distinct (λ p. (h p).call_id) ps
    → Distinct (λ p. (h' p).call_id) ps
Distinct-congr h h' [] k d = tt
Distinct-congr h h' (p ∷ ps) k d =
    (Fresh-congr h h' _ _ ps k.0.0 k.1 d.0, Distinct-congr h h' ps k.1 d.1)

-- A heap that keeps the marks of the listed objects keeps the invariant.
pub heap-Inv :
    (t : CallTable) (h : ℕ → Call) (n : ℕ)
    → t.next ≤ n
    → All (Kept t.heap h) t.calls
    → Inv t
    → Inv (record t { heap = h; next = n })
heap-Inv t h n le k v = record {
  distinct = Distinct-congr t.heap h t.calls k v.distinct;
  bounded = v.bounded;
  reserved =
      rw
        (count_if-congr (λ p. not (h p).is_ecc) (λ p. not (is_ecc_at t p)) t.calls
          (All-mono (λ p kept. ap not kept.1) t.calls k))
        v.reserved;
  allocated = All-mono (λ p lt. omega arith) t.calls v.allocated;
}
