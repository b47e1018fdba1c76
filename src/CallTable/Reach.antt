-- ===== src/CallTable/Reach.antt =====
-- The table over a whole run: what the handlers may do to it, in any order.
use telephony_call_manager_m.Prelude.{
  ℕ, suc, ◌<◌, ◌≡◌, ◌≢◌, refl, false, Option, some, List, [], ◌∷◌, arith, Bool-cases, inl, inr,
}
use telephony_call_manager_m.Prelude.Eq.{◌==◌, nat_eq, ==→≡}
use telephony_call_manager_m.Prelude.Int.{ℤ, int_eq}
use telephony_call_manager_m.Prelude.Search.{All, All-mono}
use telephony_call_manager_m.Types.{TelCallState}
use telephony_call_manager_m.Call.{Clock, Call, set_tel_call_state}
use telephony_call_manager_m.Call.Report.{set_tel_call_state-SameIdentity}
use telephony_call_manager_m.CallTable.{
  CallTable, empty_table, allocate, modify, id_of, is_ecc_at, add_one_call_object,
  delete_one_call_object, delete_call_object_ptr, get_new_call_id, set_state_by_id,
  update_one_call_object_by_call_id,
}
use telephony_call_manager_m.CallTable.Reserve.{Inv, Kept, heap-Inv}
use telephony_call_manager_m.CallTable.Steps.{
  empty_table-Inv, add-Inv, delete-Inv, delete_ptr-Inv, add_one_call_object-Added,
}

allocate-Inv : (c : Call) (t : CallTable) → Inv t → Inv (allocate c t).0
unfolding allocate
allocate-Inv c t v =
    heap-Inv t _ (suc t.next) (omega arith)
      (All-mono (λ p lt. (ground arith, ground arith)) t.calls v.allocated) v

modify-Kept :
    (f : Call → Call) (t : CallTable) (p : ℕ)
    → ((f (t.heap p)).call_id ≡ id_of t p)
    → ((f (t.heap p)).is_ecc ≡ is_ecc_at t p)
    → (q : ℕ) → Kept t.heap (modify p f t).heap q
unfolding modify
modify-Kept f t p same_id same_ecc q = elim (Bool-cases (q == p)) [
  | inl e ↦ rw (e, ==→≡ q p e) (same_id, same_ecc)
  | inr e ↦ rw e (refl, refl)
]

All-of {ℓ} : {P : ℕ → Type ℓ} → ((q : ℕ) → P q) → (ps : List ℕ) → All P ps
All-of f [] = tt
All-of f (p ∷ ps) = (f p, All-of f ps)

modify-Inv :
    (f : Call → Call) (t : CallTable) (p : ℕ)
    → ((f (t.heap p)).call_id ≡ id_of t p)
    → ((f (t.heap p)).is_ecc ≡ is_ecc_at t p)
    → Inv t
    → Inv (modify p f t)
unfolding modify
modify-Inv f t p same_id same_ecc v =
    heap-Inv t _ t.next (omega arith)
      (All-of (unfold modify in modify-Kept f t p same_id same_ecc) t.calls) v

-- An object outside the table may change its id, as `RefreshCall` does to a replacement.
unlisted-Inv :
    (f : Call → Call) (t : CallTable) (p : ℕ)
    → All (λ q. q ≢ p) t.calls
    → Inv t
    → Inv (modify p f t)
unfolding modify
unlisted-Inv f t p out v =
    heap-Inv t _ t.next (omega arith)
      (All-mono
        (λ q ne. elim (Bool-cases (q == p)) [
          | inl e ↦ absurd (ne (==→≡ q p e))
          | inr e ↦ rw e (refl, refl)
        ])
        t.calls out)
      v

set_state_by_id-Inv :
    (now : Clock) (id : ℤ) (next : TelCallState) (ps : List ℕ) (t : CallTable)
    → Inv t
    → Inv (set_state_by_id now id next ps t)
unfolding set_state_by_id
set_state_by_id-Inv now id next [] t v = v
set_state_by_id-Inv now id next (p ∷ ps) t v = elim (Bool-cases (id_of t p == id)) [
  | inl e ↦
      let kept = set_tel_call_state-SameIdentity now next (t.heap p) in
      rw e (
        set_state_by_id-Inv now id next ps _
          (modify-Inv (λ c. (set_tel_call_state now next c).0) t p kept.same_id kept.same_ecc v))
  | inr e ↦ rw e (set_state_by_id-Inv now id next ps t v)
]

-- One thing that a handler does to the table or to an object. `edits` is any assignment to other
-- members of an object, `renames` the `SetCallId` on an object that is not in the table.
pub data Step (t : CallTable) : CallTable → Type 0 where
  allocates : (c : Call) → Step t (allocate c t).0
  adds : (p : ℕ) → p < t.next → Step t (add_one_call_object (some p) t).0
  deletes : (id : ℤ) → Step t (delete_one_call_object id t).0
  deletes_ptr : (o : Option ℕ) → Step t (delete_call_object_ptr o t)
  takes_id : Step t (get_new_call_id t).0
  updates :
      (now : Clock) (id : ℤ) (next : TelCallState)
      → Step t (update_one_call_object_by_call_id now id next t)
  reports :
      (p : ℕ) (now : Clock) (next : TelCallState)
      → Step t (modify p (λ c. (set_tel_call_state now next c).0) t)
  edits :
      (p : ℕ) (f : Call → Call)
      → (f (t.heap p)).call_id ≡ id_of t p
      → (f (t.heap p)).is_ecc ≡ is_ecc_at t p
      → Step t (modify p f t)
  waits_no_more : Step t (record t { need_wait_hold = false })
  forgets_first_dial : Step t (record t { is_first_dial_call_added = false })
  renames : (p : ℕ) (f : Call → Call) → All (λ q. q ≢ p) t.calls → Step t (modify p f t)

pub data Reach (t : CallTable) : CallTable → Type 0 where
  here : Reach t t
  after : {u w : CallTable} → Reach t u → Step u w → Reach t w

pub Step-Inv : {t u : CallTable} → Step t u → Inv t → Inv u
unfolding get_new_call_id update_one_call_object_by_call_id
Step-Inv {t} (allocates c) v = allocate-Inv c t v
Step-Inv {t} (adds p lt) v = add-Inv p t _ (add_one_call_object-Added p t) lt v
Step-Inv {t} (deletes id) v = delete-Inv id t v
Step-Inv {t} (deletes_ptr o) v = delete_ptr-Inv o t v
Step-Inv {t} takes_id v = record {
  distinct = v.distinct;
  bounded = v.bounded;
  reserved = v.reserved;
  allocated = v.allocated;
}
Step-Inv {t} waits_no_more v = record {
  distinct = v.distinct;
  bounded = v.bounded;
  reserved = v.reserved;
  allocated = v.allocated;
}
Step-Inv {t} forgets_first_dial v = record {
  distinct = v.distinct;
  bounded = v.bounded;
  reserved = v.reserved;
  allocated = v.allocated;
}
Step-Inv {t} (updates now id next) v = set_state_by_id-Inv now id next t.calls t v
Step-Inv {t} (reports p now next) v =
    let kept = set_tel_call_state-SameIdentity now next (t.heap p) in
    modify-Inv (λ c. (set_tel_call_state now next c).0) t p kept.same_id kept.same_ecc v
Step-Inv {t} (edits p f same_id same_ecc) v = modify-Inv f t p same_id same_ecc v
Step-Inv {t} (renames p f out) v = unlisted-Inv f t p out v

Reach-keeps : {t u : CallTable} → Inv t → Reach t u → Inv u
Reach-keeps v here = v
Reach-keeps v (after r s) = Step-Inv s (Reach-keeps v r)

-- Whatever the handlers do to a table that was empty, in any order: the calls in it have different ids
-- and are at most five, at most four of them not emergency calls, and all of them allocated.
pub Reach-Inv : (c : Call) (t : CallTable) → Reach (empty_table c) t → Inv t
Reach-Inv c t r = Reach-keeps (empty_table-Inv c) r
