-- ===== src/Reports/DialingKeeps.antt =====
-- The handlers of outgoing calls as runs of the table's steps.
use telephony_call_manager_m.Prelude.{
  ℕ, ◌<◌, ◌≡◌, refl, subst, Option, some, arith, inl, inr, Option-cases,
}
use telephony_call_manager_m.Prelude.Int.{int_eq}
use telephony_call_manager_m.Prelude.Search.{Holds}
use telephony_call_manager_m.Types.{TelCallState, CallDirection, Bytes, Code}
use telephony_call_manager_m.Call.{Clock, Call}
use telephony_call_manager_m.Call.Report.{set_tel_call_state-SameIdentity}
use telephony_call_manager_m.CallTable.{CallTable, add_one_call_object}
use telephony_call_manager_m.CallTable.Reserve.{Inv}
use telephony_call_manager_m.CallTable.Reach.{Step}
use telephony_call_manager_m.CallTable.Runs.{start, step, followed_by, if_both}
use telephony_call_manager_m.CallTable.Queries.{get_one_call_object_by_index}
use telephony_call_manager_m.Status.{CallDetailInfo, create_new_call}
use telephony_call_manager_m.Status.Runs.{IsNew, create_new_call-IsNew}
use telephony_call_manager_m.Service.{World, Env, edit, notify_new_call_created}
use telephony_call_manager_m.Carrier.{call_at, carrier_dialing_process}
use telephony_call_manager_m.Reports.Calls.{refresh}
use telephony_call_manager_m.Reports.Dialing.{
  find_reported, take_report, update_dialing_call_info, end_dialing, mark_pending_mo, start_dialing,
  add_dialing_call, dialing_handle, refresh_dialing_state_by_other_state, find_or_refresh,
  init_index,
}
use telephony_call_manager_m.Reports.Keeps.{
  Keeps, edit-Keeps, emit-Keeps, carrier_dialing_process-Keeps, update_call_state-Keeps,
  clear_pending_state-Keeps, refresh-Keeps, find_reported-lt, get_one_call_object_by_index-lt,
}

take_report-same :
    (now : Clock) (number : Bytes) (info : CallDetailInfo) (c : Call)
    → ((take_report now number info c).call_id ≡ c.call_id)
      × ((take_report now number info c).is_ecc ≡ c.is_ecc)
unfolding take_report
take_report-same now number info c =
    let kept = set_tel_call_state-SameIdentity now info.state _ in (kept.same_id, kept.same_ecc)

update_dialing_call_info-Keeps :
    (env : Env) (info : CallDetailInfo) (w : World)
    → Inv w.table
    → Keeps w (update_dialing_call_info env info w).0
unfolding update_dialing_call_info
update_dialing_call_info-Keeps env info w v = elim (Option-cases (find_reported info w.table)) [
  | inr (p, e) ↦
      rw (e, update_dialing_call_info)
        (refresh-Keeps env info p w v (find_reported-lt info w.table p v e)).0
  | inl e ↦ elim (Option-cases (get_one_call_object_by_index init_index w.table)) [
    | inl f ↦ rw (e, f, update_dialing_call_info) (start v)
    | inr (p, f) ↦
        let r =
          refresh-Keeps env info p w v (get_one_call_object_by_index-lt init_index w.table p v f) in
        let (w1, q) = refresh env info p w in
        let g : Call → Call = take_report env.now (call_at p w).account_number info in
        let (same_id, same_ecc) =
          take_report-same env.now (call_at p w).account_number info (call_at q w1) in
        let edited = followed_by r.0 (edit-Keeps q g w1 same_id same_ecc) in
        rw (e, f, update_dialing_call_info)
          (followed_by edited (clear_pending_state-Keeps env q (edit q g w1)))
  ]
]

mark_pending_mo-Keeps :
    (info : CallDetailInfo) (p : ℕ) (w : World) → Inv w.table → Keeps w (mark_pending_mo info p w)
unfolding mark_pending_mo
mark_pending_mo-Keeps info p w v =
    if_both (Keeps w) _ _ w (unfold edit in step (start v) (Step.edits p _ refl refl)) (start v)

start_dialing-Keeps :
    (env : Env) (info : CallDetailInfo) (p : ℕ) (w : World)
    → Inv w.table
    → Keeps w (start_dialing env info p w).0
unfolding start_dialing
start_dialing-Keeps env info p w v =
    let w0 = end_dialing env (mark_pending_mo info p w) in
    let w1 = (carrier_dialing_process env p w0).0 in
    let r0 : Keeps w w0 = unfold end_dialing in mark_pending_mo-Keeps info p w v in
    let r1 = followed_by r0 (carrier_dialing_process-Keeps env p w0) in
    let w2 = notify_new_call_created p w1 in
    let r2 : Keeps w w2 = followed_by r1 (unfold notify_new_call_created in emit-Keeps _ w1) in
    let r3 = followed_by r2 (update_call_state-Keeps env p TelCallState.dialing w2) in
    if_both (λ (x : World × Code). Keeps w x.0) _ _ _ r3 r1

add_dialing_call-Keeps :
    (env : Env) (info : CallDetailInfo) (w : World)
    → Inv w.table
    → Keeps w (add_dialing_call env info w).0
unfolding add_dialing_call
add_dialing_call-Keeps env info w v =
    elim (Option-cases
      (create_new_call env.now w.last_dial info CallDirection.direction_out w.table).1) [
        | inl e ↦ rw (e, add_dialing_call) new.runs
        | inr (p, e) ↦
            let (at, grown) = subst (Holds _) e new.at_next in
            let t1 = (add_one_call_object (some p) t).0 in
            let added = step new.runs (Step.adds p (omega (arith, at, grown))) in
            rw (e, add_dialing_call)
              (if_both (λ (x : World × Code). Keeps w x.0) _ _ _
                (followed_by added (start_dialing-Keeps env info p (record w { table = t1 })))
                added)
      ]
  where
    t : CallTable
    t = (create_new_call env.now w.last_dial info CallDirection.direction_out w.table).0

    new :
        IsNew w.table t
          (create_new_call env.now w.last_dial info CallDirection.direction_out w.table).1
    new = create_new_call-IsNew env.now w.last_dial info CallDirection.direction_out w.table v

pub dialing_handle-Keeps :
    (env : Env) (info : CallDetailInfo) (w : World)
    → Inv w.table
    → Keeps w (dialing_handle env info w).0
unfolding dialing_handle
dialing_handle-Keeps env info w v =
    if_both (λ (x : World × Code). Keeps w x.0) _ _ _
      (if_both (λ (x : World × Code). Keeps w x.0) _ _ _
        (update_dialing_call_info-Keeps env info w v) (add_dialing_call-Keeps env info w v))
      (add_dialing_call-Keeps env info w v)

-- A call that is found is at an address in use.
abbrev pub KeepsFound : World → World × Option ℕ → Type 0
KeepsFound w (u, o) = Keeps w u × Holds (λ p. p < u.table.next) o

Holds-some :
    (t : CallTable) (info : CallDetailInfo) → Inv t → Holds (λ p. p < t.next) (find_reported info t)
Holds-some t info v = elim (Option-cases (find_reported info t)) [
  | inl e ↦ rw e tt
  | inr (p, e) ↦ rw e (find_reported-lt info t p v e)
]

pub find_or_refresh-Keeps :
    (env : Env) (info : CallDetailInfo) (w : World)
    → Inv w.table
    → KeepsFound w (find_or_refresh env info w)
unfolding find_or_refresh refresh_dialing_state_by_other_state
find_or_refresh-Keeps env info w v = elim (Option-cases (find_reported info w.table)) [
  | inr (p, e) ↦ rw (e, find_or_refresh) (start v, find_reported-lt info w.table p v e)
  | inl e ↦ elim (Option-cases (get_one_call_object_by_index init_index w.table)) [
    | inl f ↦ rw (e, f, find_or_refresh, refresh_dialing_state_by_other_state) (start v, tt)
    | inr (p, f) ↦
        let r = dialing_handle-Keeps env (record info { state = TelCallState.dialing }) w v in
        rw (e, f, find_or_refresh, refresh_dialing_state_by_other_state)
          (r, Holds-some _ info r.inv)
  ]
]
