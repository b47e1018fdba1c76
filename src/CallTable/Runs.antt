-- ===== src/CallTable/Runs.antt =====
-- Runs of the table's steps, put together: each keeps the invariant, and no address is given back.
use telephony_call_manager_m.Call.{Clock}
use telephony_call_manager_m.Prelude.{
  ℕ, ◌≤◌, ◌≡◌, refl, Bool, true, false, none, some, List, [], ◌∷◌, arith, Bool-cases, if◌then◌else◌,
  inl, inr, Option-cases, ◌∙◌,
}
use telephony_call_manager_m.Prelude.Eq.{◌==◌}
use telephony_call_manager_m.Prelude.Int.{ℤ, int_eq}
use telephony_call_manager_m.Prelude.Search.{All, Holds, find_if, find_last_if}
use telephony_call_manager_m.Types.{TelCallState}
use telephony_call_manager_m.CallTable.{
  CallTable, allocate, modify, id_of, add_one_call_object, delete_one_call_object,
  delete_call_object_ptr, get_new_call_id, set_state_by_id, update_one_call_object_by_call_id,
  append_call,
}
use telephony_call_manager_m.CallTable.Reserve.{Inv}
use telephony_call_manager_m.CallTable.Reach.{Step, Reach, Step-Inv}

pub Reach-append : {t u w : CallTable} → Reach t u → Reach u w → Reach t w
Reach-append r Reach.here = r
Reach-append r (Reach.after s x) = Reach.after (Reach-append r s) x

next-set_state_by_id :
    (now : Clock) (id : ℤ) (next : TelCallState) (ps : List ℕ) (t : CallTable)
    → (set_state_by_id now id next ps t).next ≡ t.next
unfolding set_state_by_id modify
next-set_state_by_id now id next [] t = refl
next-set_state_by_id now id next (p ∷ ps) t = elim (Bool-cases (id_of t p == id)) [
  | inl e ↦ rw (e, set_state_by_id) (unfold modify in next-set_state_by_id now id next ps _)
  | inr e ↦ rw (e, set_state_by_id) (next-set_state_by_id now id next ps t)
]

next-add_one_call_object :
    (p : ℕ) (t : CallTable) → (add_one_call_object (some p) t).0.next ≡ t.next
unfolding add_one_call_object append_call
next-add_one_call_object p t = ground arith

waits-set_state_by_id :
    (now : Clock) (id : ℤ) (next : TelCallState) (ps : List ℕ) (t : CallTable)
    → (set_state_by_id now id next ps t).need_wait_hold ≡ t.need_wait_hold
unfolding set_state_by_id modify
waits-set_state_by_id now id next [] t = refl
waits-set_state_by_id now id next (p ∷ ps) t = elim (Bool-cases (id_of t p == id)) [
  | inl e ↦ rw (e, set_state_by_id) (unfold modify in waits-set_state_by_id now id next ps _)
  | inr e ↦ rw (e, set_state_by_id) (waits-set_state_by_id now id next ps t)
]

waits-add_one_call_object :
    (p : ℕ) (t : CallTable) → (add_one_call_object (some p) t).0.need_wait_hold ≡ t.need_wait_hold
unfolding add_one_call_object append_call
waits-add_one_call_object p t = ground arith

Step-next : {t u : CallTable} → Step t u → t.next ≤ u.next
unfolding allocate modify get_new_call_id update_one_call_object_by_call_id delete_one_call_object
Step-next {t} (Step.allocates c) = omega arith
Step-next {t} (Step.adds p lt) = omega (arith, next-add_one_call_object p t)
Step-next {t} (Step.deletes id) = omega arith
Step-next {t} (Step.deletes_ptr none) = unfold delete_call_object_ptr in omega arith
Step-next {t} (Step.deletes_ptr (some p)) = unfold delete_call_object_ptr in omega arith
Step-next {t} Step.takes_id = omega arith
Step-next {t} Step.waits_no_more = omega arith
Step-next {t} Step.forgets_first_dial = omega arith
Step-next {t} (Step.updates now id next) = omega (arith, next-set_state_by_id now id next t.calls t)
Step-next {t} (Step.reports p now next) = omega arith
Step-next {t} (Step.edits p f same_id same_ecc) = omega arith
Step-next {t} (Step.renames p f out) = omega arith

-- No step of the table waits for a held call.
Step-waits : {t u : CallTable} → Step t u → t.need_wait_hold ≡ false → u.need_wait_hold ≡ false
unfolding allocate modify get_new_call_id update_one_call_object_by_call_id delete_one_call_object
Step-waits {t} (Step.allocates c) e = e
Step-waits {t} (Step.adds p lt) e = waits-add_one_call_object p t ∙ e
Step-waits {t} (Step.deletes id) e = e
Step-waits {t} (Step.deletes_ptr none) e = unfold delete_call_object_ptr in e
Step-waits {t} (Step.deletes_ptr (some p)) e = unfold delete_call_object_ptr in e
Step-waits {t} Step.takes_id e = e
Step-waits {t} Step.waits_no_more e = refl
Step-waits {t} Step.forgets_first_dial e = e
Step-waits {t} (Step.updates now id next) e = waits-set_state_by_id now id next t.calls t ∙ e
Step-waits {t} (Step.reports p now next) e = e
Step-waits {t} (Step.edits p f same_id same_ecc) e = e
Step-waits {t} (Step.renames p f out) e = e

pub Reach-waits :
    {t u : CallTable} → Reach t u → t.need_wait_hold ≡ false → u.need_wait_hold ≡ false
Reach-waits Reach.here e = e
Reach-waits (Reach.after r s) e = Step-waits s (Reach-waits r e)

-- A run of steps, with what it leaves.
pub record Runs (t u : CallTable) : Type 0 where
  pub reach : Reach t u
  pub inv : Inv u
  pub grows : t.next ≤ u.next

pub start : {t : CallTable} → Inv t → Runs t t
start v = record { reach = Reach.here; inv = v; grows = omega arith }

pub step : {t u w : CallTable} → Runs t u → Step u w → Runs t w
step r s = record {
  reach = Reach.after r.reach s;
  inv = Step-Inv s r.inv;
  grows = omega (arith, r.grows, Step-next s);
}

pub followed_by : {t u w : CallTable} → Runs t u → (Inv u → Runs u w) → Runs t w
followed_by r next =
    let s = next r.inv in
    record {
      reach = Reach-append r.reach s.reach;
      inv = s.inv;
      grows = omega (arith, r.grows, s.grows);
    }

-- Both branches of a test, and of an option.
pub if_both {ℓ κ} :
    {A : Type ℓ} (P : A → Type κ) (b : Bool) (x y : A) → P x → P y → P (if b then x else y)
if_both P true x y px py = px
if_both P false x y px py = py

pub All-find_if : (P : ℕ → Type 0) (p : ℕ → Bool) (ps : List ℕ) → All P ps → Holds P (find_if p ps)
unfolding find_if
All-find_if P p [] v = tt
All-find_if P p (x ∷ xs) v = elim (Bool-cases (p x)) [
  | inl e ↦ rw e v.0
  | inr e ↦ rw e (All-find_if P p xs v.1)
]

pub All-find_last_if :
    (P : ℕ → Type 0) (p : ℕ → Bool) (ps : List ℕ) → All P ps → Holds P (find_last_if p ps)
unfolding find_last_if
All-find_last_if P p [] v = tt
All-find_last_if P p (x ∷ xs) v = elim (Option-cases (find_last_if p xs)) [
  | inl e ↦ rw e (if_both (Holds _) (p x) (some x) none v.0 tt)
  | inr (y, e) ↦ rw e (rw e at (All-find_last_if P p xs v.1))
]
