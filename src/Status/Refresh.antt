-- ===== src/Status/Refresh.antt =====
-- What replacing a call object does to the table.
use telephony_call_manager_m.Prelude.{
  ℕ, suc, ◌≤◌, ◌≡◌, ◌≢◌, inl, inr, refl, ap, ◌∙◌, Bool, false, none, some, List, [], ◌∷◌, arith,
  Bool-cases, length, Option, true, ◌<◌, if◌then◌else◌, sym, subst,
}
use telephony_call_manager_m.Prelude.Eq.{◌==◌, ==→≡, ==_refl, nat_eq}
use telephony_call_manager_m.Prelude.Int.{ℤ, int_eq}
use telephony_call_manager_m.Prelude.Search.{
  All, All-mono, All-erase_first, find_if, erase_first, any_if-eq-find_if,
}
use telephony_call_manager_m.Types.{Code, is_success, TelCallState}
use telephony_call_manager_m.CallTable.{
  CallTable, modify, id_of, is_ecc_at, add_one_call_object, delete_one_call_object, append_call,
  limit_for,
}
use telephony_call_manager_m.CallTable.Queries.{get_one_call_object}
use telephony_call_manager_m.CallTable.Reserve.{Inv, Fresh, any_if-Fresh}
use telephony_call_manager_m.CallTable.Lookup.{get_one_call_object-delete, get_one_call_object-add}
use telephony_call_manager_m.CallTable.Limits.{ordinary_refused}
use telephony_call_manager_m.Conference.{Conference}
use telephony_call_manager_m.CallTable.Steps.{add_one_call_object-Added}
use telephony_call_manager_m.Call.{Clock, Call, set_tel_call_state}
use telephony_call_manager_m.Call.Report.{set_tel_call_state-SameIdentity}
use telephony_call_manager_m.Status.{take_over, CallDetailInfo, Attributes, replace_call}

length-erase_first :
    (test : ℕ → Bool) (ps : List ℕ) (q : ℕ)
    → find_if test ps ≡ some q
    → suc (length (erase_first test ps)) ≡ length ps
unfolding find_if erase_first
length-erase_first test [] q h = ground (arith, h)
length-erase_first test (p ∷ ps) q h = elim (Bool-cases (test p)) [
  | inl e ↦ rw e refl
  | inr e ↦ rw e (ap suc (length-erase_first test ps q (rw e at h)))
]

find_if-congr :
    (test test' : ℕ → Bool) (ps : List ℕ)
    → All (λ p. test p ≡ test' p) ps
    → find_if test ps ≡ find_if test' ps
unfolding find_if
find_if-congr test test' [] a = refl
find_if-congr test test' (p ∷ ps) a = elim (Bool-cases (test' p)) [
  | inl e ↦ rw (a.0, e) refl
  | inr e ↦ rw (a.0, e) (find_if-congr test test' ps a.1)
]

-- The table after the deletion, with the replacement under the old id, which is not in the list.
abbrev renamed : ℕ → ℕ → CallTable → CallTable
renamed p q t =
    modify p (λ c. record c { call_id = id_of t q }) (delete_one_call_object (id_of t q) t).0

renamed-ecc : (p q r : ℕ) (t : CallTable) → is_ecc_at (renamed p q t) r ≡ is_ecc_at t r
unfolding modify delete_one_call_object
renamed-ecc p q r t = elim (Bool-cases (r == p)) [
  | inl e ↦ rw (e, is_ecc_at, ==→≡ r p e) refl
  | inr e ↦ rw (e, is_ecc_at) refl
]

get_one_call_object-renamed :
    (p q : ℕ) (t : CallTable)
    → Inv t
    → All (λ r. r ≢ p) t.calls
    → get_one_call_object (id_of t q) (renamed p q t) ≡ none
unfolding get_one_call_object modify delete_one_call_object
get_one_call_object-renamed p q t v out =
    find_if-congr _ _ (erase_first (λ r. id_of t r == id_of t q) t.calls)
      (All-mono same _ (All-erase_first _ (λ r. id_of t r == id_of t q) t.calls out))
    ∙ gone
  where
    same : (r : ℕ) → r ≢ p → (id_of (renamed p q t) r == id_of t q) ≡ (id_of t r == id_of t q)
    same r ne = elim (Bool-cases (r == p)) [
      | inl e ↦ absurd (ne (==→≡ r p e))
      | inr e ↦ rw (e, id_of) refl
    ]

    gone :
        find_if (λ r. id_of t r == id_of t q) (erase_first (λ r. id_of t r == id_of t q) t.calls)
        ≡ none
    gone = get_one_call_object-delete (id_of t q) (id_of t q) t v ∙ (rw (==_refl (id_of t q)) refl)

not_success : (c : Code) → c ≢ Code.success → is_success c ≡ false
not_success Code.success ne = absurd (ne refl)
not_success _ ne = refl

-- When the table has five calls and a call that is not an emergency call is replaced by an object that
-- is not one either and is not in the table, then the old object stands for the call afterwards, but
-- the table has nothing under its id.
pub replace_call_loses :
    (now : Clock) (info : CallDetailInfo) (a : Attributes) (p q : ℕ) (t : CallTable)
    (f : Conference)
    → Inv t
    → length t.calls ≡ 5
    → get_one_call_object (id_of t q) t ≡ some q
    → All (λ r. r ≢ p) t.calls
    → is_ecc_at t q ≡ false
    → is_ecc_at t p ≡ false
    → let (u, g, r) = replace_call now info a q p t f in
      (r ≡ q) × (get_one_call_object (id_of t q) u ≡ none)
unfolding replace_call
replace_call_loses now info a p q t f v size found out plain_old plain_new =
    let few : 4 ≤ length (renamed p q t).calls =
      unfold modify delete_one_call_object in
      omega (
        arith,
        size,
        length-erase_first (λ r. id_of t r == id_of t q) t.calls q
            (unfold get_one_call_object in found),
      ) in
    let new = ordinary_refused p (renamed p q t) (renamed-ecc p q p t ∙ plain_new) few in
    let old = ordinary_refused q (renamed p q t) (renamed-ecc p q q t ∙ plain_old) few in
    let failed = not_success (add_one_call_object (some p) (renamed p q t)).1 new.1 in
    rw (failed, new.0, old.0) (refl, get_one_call_object-renamed p q t v out)

-- An assignment that keeps the id of the object leaves every call where it was in the table.
get_one_call_object-modify :
    (p : ℕ) (g : Call → Call) (id : ℤ) (u : CallTable)
    → (g (u.heap p)).call_id ≡ id_of u p
    → get_one_call_object id (modify p g u) ≡ get_one_call_object id u
unfolding get_one_call_object modify
get_one_call_object-modify p g id u keeps = find_if-congr _ _ u.calls (every u.calls)
  where
    same : (r : ℕ) → ((if r == p then g (u.heap r) else u.heap r).call_id == id) ≡ (id_of u r == id)
    same r = elim (Bool-cases (r == p)) [
      | inl e ↦ rw (e, ==→≡ r p e, keeps) refl
      | inr e ↦ rw e refl
    ]

    every :
        (ps : List ℕ)
        → All
            (λ r. ((if r == p then g (u.heap r) else u.heap r).call_id == id) ≡ (id_of u r == id))
            ps
    every [] = tt
    every (r ∷ rs) = (same r, every rs)

renamed-id : (p q : ℕ) (t : CallTable) → id_of (renamed p q t) p ≡ id_of t q
unfolding modify
renamed-id p q t = rw (id_of, ==_refl p) refl

renamed-Fresh :
    (p q : ℕ) (t : CallTable)
    → Inv t
    → All (λ r. r ≢ p) t.calls
    → Fresh (id_of (renamed p q t)) (id_of (renamed p q t) p) (renamed p q t).calls
renamed-Fresh p q t v out =
    let none_there : find_if (λ r. id_of (renamed p q t) r == id_of t q) (renamed p q t).calls
        ≡ none =
      unfold get_one_call_object in get_one_call_object-renamed p q t v out in
    subst (λ k. Fresh (id_of (renamed p q t)) k (renamed p q t).calls) (sym (renamed-id p q t))
      (any_if-Fresh (id_of (renamed p q t)) (id_of t q) (renamed p q t).calls (
        any_if-eq-find_if (λ r. id_of (renamed p q t) r == id_of t q) (renamed p q t).calls
        ∙ ap (λ o. elim o [ none ↦ false | some _ ↦ true ]) none_there))

four-le-limit : (b : Bool) → 4 ≤ limit_for b
unfolding limit_for
four-le-limit true = omega arith
four-le-limit false = omega arith

finish-id :
    (now : Clock) (next : TelCallState) (a : Attributes) (old c : Call)
    → (set_tel_call_state now next (take_over a old c)).0.call_id ≡ c.call_id
unfolding take_over
finish-id now next a old c = (set_tel_call_state-SameIdentity now next (take_over a old c)).same_id

chosen : (x y : ℤ) → x ≡ y → (p : ℕ) (o : Option ℕ) → (if x == y then some p else o) ≡ some p
chosen x y e p o = rw (e, ==_refl y) refl

-- When the table has at most four calls, and a call in it is replaced by an object that is not, the
-- object stands for the call afterwards and is the one that the table has under the call's id.
pub replace_call_keeps :
    (now : Clock) (info : CallDetailInfo) (a : Attributes) (p q : ℕ) (t : CallTable)
    (f : Conference)
    → Inv t
    → length t.calls ≤ 4
    → get_one_call_object (id_of t q) t ≡ some q
    → All (λ r. r ≢ p) t.calls
    → let (u, g, r) = replace_call now info a q p t f in
      (r ≡ p) × (get_one_call_object (id_of t q) u ≡ some p)
unfolding replace_call
replace_call_keeps now info a p q t f v size found out =
    let n = renamed p q t in
    let few : length n.calls < 4 =
      unfold modify delete_one_call_object in
      omega (
        arith,
        size,
        length-erase_first (λ r. id_of t r == id_of t q) t.calls q
            (unfold get_one_call_object in found),
      ) in
    let limit = four-le-limit (is_ecc_at n p) in
    let room : length n.calls < limit_for (is_ecc_at n p) = omega (arith, few, limit) in
    let fresh = renamed-Fresh p q t v out in
    let there = get_one_call_object-add p n (id_of t q) fresh room in
    elim (add_one_call_object-Added p n) [
      | inl (old, _) ↦ absurd (old fresh)
      | inr (inl (_, more, _)) ↦ absurd (omega (arith, more, room))
      | inr (inr (_, _, e)) ↦ rw e (
        refl,
        get_one_call_object-modify p _ (id_of t q) (append_call p n)
              (finish-id now (t.heap q).call_state a (t.heap q) _)
            ∙ (sym (ap (λ r. get_one_call_object (id_of t q) r.0) e)
                ∙ there
                ∙ chosen (id_of n p) (id_of t q) (renamed-id p q t) p _),
      )
    ]
