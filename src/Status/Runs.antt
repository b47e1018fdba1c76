-- ===== src/Status/Runs.antt =====
-- The creation and the replacement of a call object as runs of the table's steps.
use telephony_call_manager_m.Prelude.{
  ℕ, suc, ◌<◌, ◌≡◌, ◌≢◌, refl, ◌∙◌, subst, Option, some, List, arith, Bool-cases, inl, inr,
  Option-cases,
}
use telephony_call_manager_m.Prelude.Search.{All, All-mono, All-erase_first, Holds}
use telephony_call_manager_m.Prelude.Int.{int_eq}
use telephony_call_manager_m.Types.{TelCallState, is_success, CallDirection}
use telephony_call_manager_m.Call.{Clock, Call, DialParaInfo, set_tel_call_state}
use telephony_call_manager_m.Call.Report.{set_tel_call_state-SameIdentity}
use telephony_call_manager_m.CallTable.{
  CallTable, allocate, modify, add_one_call_object, delete_one_call_object, get_new_call_id,
}
use telephony_call_manager_m.CallTable.Reserve.{Inv}
use telephony_call_manager_m.CallTable.Reach.{Step}
use telephony_call_manager_m.CallTable.Runs.{Runs, start, step, followed_by, if_both}
use telephony_call_manager_m.Conference.{Conference}
use telephony_call_manager_m.Status.{
  CallDetailInfo, Attributes, create_new_call, class_of, take_over, replace_call, refresh_call,
  refresh_marks, refresh_call_if_necessary, get_call_attribute_base_info,
}

-- A new object: its address is the next one, and it is not in the table.
pub record IsNew (t u : CallTable) (o : Option ℕ) : Type 0 where
  pub runs : Runs t u
  pub same_calls : u.calls ≡ t.calls
  pub at_next : Holds (λ p. (p ≡ t.next) × (u.next ≡ suc t.next)) o

pub create_new_call-IsNew :
    (now : Clock) (last : DialParaInfo) (info : CallDetailInfo) (dir : CallDirection)
    (t : CallTable)
    → Inv t
    → IsNew t (create_new_call now last info dir t).0 (create_new_call now last info dir t).1
unfolding create_new_call
create_new_call-IsNew now last info dir t v = elim (Option-cases (class_of info.call_type)) [
  | inl e ↦
      rw (e, create_new_call)
        (record {
          runs = step (start v) Step.takes_id;
          same_calls = unfold get_new_call_id in refl;
          at_next = tt;
        })
  | inr (k, e) ↦
      rw (e, create_new_call)
        (record {
          runs = step (step (start v) Step.takes_id) (Step.allocates _);
          same_calls = unfold get_new_call_id allocate in refl;
          at_next = unfold get_new_call_id allocate in (refl, refl);
        })
]

-- The result of a replacement: a run, at an address in use.
abbrev pub Replaced : CallTable → CallTable × Conference × ℕ → Type 0
Replaced t (u, f, r) = Runs t u × (r < u.next)

-- The object with the old id, in the table; then with what it takes over.
take_over-same :
    (now : Clock) (a : Attributes) (old c : Call) (s : TelCallState)
    → ((set_tel_call_state now s (take_over a old c)).0.call_id ≡ c.call_id)
      × ((set_tel_call_state now s (take_over a old c)).0.is_ecc ≡ c.is_ecc)
take_over-same now a old c s =
    let kept = set_tel_call_state-SameIdentity now s (take_over a old c) in
    (kept.same_id ∙ unfold take_over in refl, kept.same_ecc ∙ unfold take_over in refl)

pub replace_call-Replaced :
    (now : Clock) (info : CallDetailInfo) (a : Attributes) (p q : ℕ) (t : CallTable)
    (f : Conference)
    → Inv t
    → All (λ r. r ≢ p) t.calls
    → p < t.next
    → q < t.next
    → Replaced t (replace_call now info a q p t f)
unfolding replace_call
replace_call-Replaced now info a p q t f v out lp lq =
    elim (Bool-cases (is_success (add_one_call_object (some p) renamed).1)) [
      | inl e ↦ rw (e, replace_call) (finished, omega (arith, lp, finished.grows))
      | inr e ↦ rw (e, replace_call) (restored, omega (arith, lq, restored.grows))
    ]
  where
    renamed : CallTable
    renamed =
        modify p (λ c. record c { call_id = (t.heap q).call_id })
          (delete_one_call_object (t.heap q).call_id t).0

    runs : Runs t renamed
    runs =
        step (step (start v) (Step.deletes (t.heap q).call_id))
          (Step.renames p _ (unfold delete_one_call_object in All-erase_first _ _ t.calls out))

    added : Runs t (add_one_call_object (some p) renamed).0
    added = step runs (Step.adds p (omega (arith, lp, runs.grows)))

    finish : Call → Call
    finish c =
        record ((set_tel_call_state now (t.heap q).call_state (take_over a (t.heap q) c)).0) {
          ims_domain = a.ims_domain;
        }

    finished : Runs t (modify p finish (add_one_call_object (some p) renamed).0)
    finished =
        let (same_id, same_ecc) =
          take_over-same now a (t.heap q) ((add_one_call_object (some p) renamed).0.heap p)
            (t.heap q).call_state in
        step added (Step.edits p finish same_id same_ecc)

    restored : Runs t (add_one_call_object (some q) (add_one_call_object (some p) renamed).0).0
    restored = step added (Step.adds q (omega (arith, lq, added.grows)))

marks-Runs :
    (info : CallDetailInfo) (q : ℕ) (t : CallTable)
    → Inv t
    → Runs t (modify q (refresh_marks info) t)
marks-Runs info q t v = step (start v) (
    Step.edits q (refresh_marks info) (unfold refresh_marks in refl) (unfold refresh_marks in refl))

below : (ps : List ℕ) (n : ℕ) → All (λ r. r < n) ps → All (λ r. r ≢ n) ps
below ps n v = All-mono (λ r lt e. omega (arith, lt, e)) ps v

pub refresh_call-Replaced :
    (now : Clock) (last : DialParaInfo) (info : CallDetailInfo) (q : ℕ) (t : CallTable)
    (f : Conference)
    → Inv t
    → q < t.next
    → Replaced t (refresh_call now last info q t f)
unfolding refresh_call
refresh_call-Replaced now last info q t f v lq =
    elim (Option-cases (create_new_call now last info a.direction t).1) [
      | inl e ↦ rw (e, refresh_call) (new.runs, omega (arith, lq, new.runs.grows))
      | inr (p, e) ↦
          let (at, grown) = subst (Holds _) e new.at_next in
          let (runs, lt) =
            replace_call-Replaced now info a p q u f new.runs.inv
              (rw (new.same_calls, at) (below t.calls t.next v.allocated))
              (omega (arith, at, grown)) (omega (arith, lq, new.runs.grows)) in
          rw (e, refresh_call) (followed_by new.runs (λ i. runs), lt)
    ]
  where
    a : Attributes
    a = get_call_attribute_base_info (t.heap q)

    u : CallTable
    u = (create_new_call now last info a.direction t).0

    new : IsNew t u (create_new_call now last info a.direction t).1
    new = create_new_call-IsNew now last info a.direction t v

pub refresh_call_if_necessary-Replaced :
    (now : Clock) (last : DialParaInfo) (info : CallDetailInfo) (q : ℕ) (t : CallTable)
    (f : Conference)
    → Inv t
    → q < t.next
    → Replaced t (refresh_call_if_necessary now last info q t f)
unfolding refresh_call_if_necessary
refresh_call_if_necessary-Replaced now last info q t f v lq =
    let marked = marks-Runs info q t v in
    let (runs, lt) =
      refresh_call-Replaced now last info q (modify q (refresh_marks info) t) f marked.inv
        (omega (arith, lq, marked.grows)) in
    if_both (Replaced t) _ _ _ (marked, omega (arith, lq, marked.grows))
      (followed_by marked (λ i. runs), lt)
