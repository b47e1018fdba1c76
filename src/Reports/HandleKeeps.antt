-- ===== src/Reports/HandleKeeps.antt =====
-- Every report as a run of the table's steps.
use telephony_call_manager_m.Prelude.{
  ℕ, ◌<◌, refl, subst, true, List, [], ◌∷◌, arith, if◌then◌else◌, ◌&&◌, leb, length, inl, inr,
  Option-cases,
}
use telephony_call_manager_m.Prelude.Eq.{◌==◌}
use telephony_call_manager_m.Prelude.Int.{ℤ, pos, int_eq}
use telephony_call_manager_m.Prelude.Search.{Holds}
use telephony_call_manager_m.Types.{TelCallState, RunningState, Code}
use telephony_call_manager_m.CallTable.{CallTable}
use telephony_call_manager_m.CallTable.Reserve.{Inv}
use telephony_call_manager_m.CallTable.Runs.{start, followed_by, if_both}
use telephony_call_manager_m.CallTable.Queries.{get_call_in}
use telephony_call_manager_m.Status.{CallDetailInfo}
use telephony_call_manager_m.Service.{World, Env}
use telephony_call_manager_m.Carrier.{call_at}
use telephony_call_manager_m.Reports.Calls.{
  update_call_state, clear_pending_state, refresh, exit_conference, hold_conference_at,
  set_original_call_type_for_active_state, set_original_call_type_for_disconnect_state,
  get_conference_call_list, set_conference_call,
}
use telephony_call_manager_m.Reports.Dialing.{find_reported, find_or_refresh}
use telephony_call_manager_m.Reports.Handle.{
  can_switch_held, active_at, active_handle, holding_handle, alert_handle, disconnecting_handle,
  handle_state, handle_call_report_info,
}
use telephony_call_manager_m.Reports.Diff.{
  handle_reported, handle_missing, handle_calls_report_info, update_call_details_info, at_slot,
  needs_handling, is_reported, gone,
}
use telephony_call_manager_m.Reports.Keeps.{
  Keeps, edit-Keeps, update_call_state-Keeps, clear_pending_state-Keeps, exit_conference-Keeps,
  hold_conference_at-Keeps, set_conference_call-Keeps,
  set_original_call_type_for_active_state-Keeps, set_original_call_type_for_disconnect_state-Keeps,
  refresh-Keeps, find_reported-lt,
}
use telephony_call_manager_m.Reports.IncomingKeeps.{incoming_handle-Keeps}
use telephony_call_manager_m.Reports.DialingKeeps.{dialing_handle-Keeps, find_or_refresh-Keeps}
use telephony_call_manager_m.Reports.DisconnectKeeps.{HandlerKeeps, disconnected_handle-Keeps}

found-Holds :
    (info : CallDetailInfo) (t : CallTable) → Inv t → Holds (λ p. p < t.next) (find_reported info t)
found-Holds info t v = elim (Option-cases (find_reported info t)) [
  | inl e ↦ rw e tt
  | inr (p, e) ↦ rw e (find_reported-lt info t p v e)
]

can_switch_held-Keeps : (w : World) → Inv w.table → Keeps w (can_switch_held w)
unfolding can_switch_held
can_switch_held-Keeps w v = elim (Option-cases (get_call_in RunningState.hold w.table)) [
  | inl e ↦ rw (e, can_switch_held) (start v)
  | inr (q, e) ↦
      rw (e, can_switch_held)
        (edit-Keeps q (λ c. record c { can_switch_call_state = true }) w refl refl v)
]

active_at-Keeps :
    (env : Env) (info : CallDetailInfo) (p : ℕ) (w : World)
    → Inv w.table
    → p < w.table.next
    → Keeps w (active_at env info p w).0
unfolding active_at
active_at-Keeps env info p w v lt =
    let w0 = clear_pending_state env p w in
    let r0 = clear_pending_state-Keeps env p w v in
    let w1 = (refresh env info p w0).0 in
    let q = (refresh env info p w0).1 in
    let r1 =
      followed_by r0 (λ i. (refresh-Keeps env info p w0 i (omega (arith, lt, r0.grows))).0) in
    let w2 = set_original_call_type_for_active_state q w1 in
    let r2 = followed_by r1 (set_original_call_type_for_active_state-Keeps q w1) in
    let ps = get_conference_call_list (call_at q w2).slot_id w2 in
    let many = info.mpty == pos 1 && leb 2 (length ps) in
    let w3 = if many then set_conference_call env ps w2 else exit_conference q w2 in
    let r3 : Keeps w w3 =
      if_both (Keeps w) many (set_conference_call env ps w2) (exit_conference q w2)
        (followed_by r2 (set_conference_call-Keeps env ps w2))
        (followed_by r2 (exit_conference-Keeps q w2)) in
    let w4 = (update_call_state env q TelCallState.active w3).0 in
    let r4 = followed_by r3 (update_call_state-Keeps env q TelCallState.active w3) in
    if_both (Keeps w) _ (can_switch_held w4) w4 (followed_by r4 (can_switch_held-Keeps w4)) r4

active_handle-Keeps : (env : Env) → HandlerKeeps (active_handle env)
unfolding active_handle
active_handle-Keeps env info w v =
    let found = find_or_refresh-Keeps env info w v in
    let w1 = (find_or_refresh env info w).0 in
    elim (Option-cases (find_or_refresh env info w).1) [
      | inl e ↦ rw (e, active_handle) found.0
      | inr (p, e) ↦
          let lt = subst (Holds _) e found.1 in
          rw (e, active_handle) (followed_by found.0 (λ i. active_at-Keeps env info p w1 i lt))
    ]

holding_handle-Keeps : (env : Env) → HandlerKeeps (holding_handle env)
unfolding holding_handle
holding_handle-Keeps env info w v = elim (Option-cases (find_reported info w.table)) [
  | inl e ↦ rw (e, holding_handle) (start v)
  | inr (p, e) ↦
      let r = refresh-Keeps env info p w v (find_reported-lt info w.table p v e) in
      let w1 = (refresh env info p w).0 in
      let q = (refresh env info p w).1 in
      let w2 = if info.mpty == pos 1 then hold_conference_at q w1 else w1 in
      let r2 : Keeps w w2 =
        if_both (Keeps w) (info.mpty == pos 1) (hold_conference_at q w1) w1
          (followed_by r.0 (hold_conference_at-Keeps q w1)) r.0 in
      rw (e, holding_handle)
        (followed_by r2 (update_call_state-Keeps env q TelCallState.holding w2))
]

alert_handle-Keeps : (env : Env) → HandlerKeeps (alert_handle env)
unfolding alert_handle
alert_handle-Keeps env info w v =
    let found = find_or_refresh-Keeps env info w v in
    let w1 = (find_or_refresh env info w).0 in
    elim (Option-cases (find_or_refresh env info w).1) [
      | inl e ↦ rw (e, alert_handle) found.0
      | inr (p, e) ↦
          let lt = subst (Holds _) e found.1 in
          let w2 = clear_pending_state env p w1 in
          let r2 = followed_by found.0 (clear_pending_state-Keeps env p w1) in
          let grown = clear_pending_state-Keeps env p w1 found.0.inv in
          let w3 = (refresh env info p w2).0 in
          let q = (refresh env info p w2).1 in
          let r3 =
            followed_by r2
              (λ i. (refresh-Keeps env info p w2 i (omega (arith, lt, grown.grows))).0) in
          rw (e, alert_handle)
            (if_both (λ (x : World × Code). Keeps w x.0) _ (w2, _) _ r2
              (followed_by r3 (update_call_state-Keeps env q TelCallState.alerting w3)))
    ]

disconnecting_handle-Keeps : (env : Env) → HandlerKeeps (disconnecting_handle env)
unfolding disconnecting_handle
disconnecting_handle-Keeps env info w v = elim (Option-cases (find_reported info w.table)) [
  | inl e ↦ rw (e, disconnecting_handle) (start v)
  | inr (p, e) ↦
      let r = refresh-Keeps env info p w v (find_reported-lt info w.table p v e) in
      let w1 = (refresh env info p w).0 in
      let q = (refresh env info p w).1 in
      let w2 = set_original_call_type_for_disconnect_state q w1 in
      let r2 = followed_by r.0 (set_original_call_type_for_disconnect_state-Keeps q w1) in
      rw (e, disconnecting_handle)
        (followed_by r2 (update_call_state-Keeps env q TelCallState.disconnecting w2))
]

handle_state-Keeps : (env : Env) (s : TelCallState) → HandlerKeeps (handle_state env s)
unfolding handle_state
handle_state-Keeps env TelCallState.active info w v = active_handle-Keeps env info w v
handle_state-Keeps env TelCallState.holding info w v = holding_handle-Keeps env info w v
handle_state-Keeps env TelCallState.dialing info w v = dialing_handle-Keeps env info w v
handle_state-Keeps env TelCallState.alerting info w v = alert_handle-Keeps env info w v
handle_state-Keeps env TelCallState.incoming info w v = incoming_handle-Keeps env info w v
handle_state-Keeps env TelCallState.waiting info w v = incoming_handle-Keeps env info w v
handle_state-Keeps env TelCallState.disconnected info w v = disconnected_handle-Keeps env info w v
handle_state-Keeps env TelCallState.disconnecting info w v = disconnecting_handle-Keeps env info w v
handle_state-Keeps env TelCallState.unknown info w v = start v
handle_state-Keeps env TelCallState.idle info w v = start v
handle_state-Keeps env TelCallState.answered info w v = start v

pub handle_call_report_info-Keeps : (env : Env) → HandlerKeeps (handle_call_report_info env)
unfolding handle_call_report_info
handle_call_report_info-Keeps env info w v = handle_state-Keeps env info.state info w v

handle_reported-Keeps :
    (env : Env) (stored report : List CallDetailInfo) (w : World)
    → Inv w.table
    → Keeps w (handle_reported env stored report w)
unfolding handle_reported
handle_reported-Keeps env stored [] w v = start v
handle_reported-Keeps env stored (d ∷ ds) w v =
    let w1 = if needs_handling stored d then (handle_call_report_info env d w).0 else w in
    let r : Keeps w w1 =
      if_both (Keeps w) (needs_handling stored d) (handle_call_report_info env d w).0 w
        (handle_call_report_info-Keeps env d w v) (start v) in
    followed_by r (handle_reported-Keeps env stored ds w1)

handle_missing-Keeps :
    (env : Env) (report stored : List CallDetailInfo) (w : World)
    → Inv w.table
    → Keeps w (handle_missing env report stored w)
unfolding handle_missing
handle_missing-Keeps env report [] w v = start v
handle_missing-Keeps env report (d ∷ ds) w v =
    let w1 = if is_reported report d.index then w else (handle_call_report_info env (gone d) w).0 in
    let r : Keeps w w1 =
      if_both (Keeps w) (is_reported report d.index) w (handle_call_report_info env (gone d) w).0
        (start v) (handle_call_report_info-Keeps env (gone d) w v) in
    followed_by r (handle_missing-Keeps env report ds w1)

-- Whatever the network reports of the calls of a slot, and whatever the cellular stack answers, the table
-- keeps its invariant: different call ids, at most five calls, at most four of them not emergency
-- calls. No address is given back.
pub handle_calls_report_info-Keeps :
    (env : Env) (slot : ℤ) (report : List CallDetailInfo) (w : World)
    → Inv w.table
    → Keeps w (handle_calls_report_info env slot report w).0
unfolding handle_calls_report_info
handle_calls_report_info-Keeps env slot report w v =
    let w0 = record w { latest = at_slot slot report w.latest } in
    let w1 = handle_reported env (w.stored slot) report w0 in
    let w2 = handle_missing env report (w.stored slot) w1 in
    let r1 : Keeps w w1 = handle_reported-Keeps env (w.stored slot) report w0 v in
    let r2 = followed_by r1 (handle_missing-Keeps env report (w.stored slot) w1) in
    let r3 : Keeps w (update_call_details_info slot report w2) =
      unfold update_call_details_info in r2 in
    if_both (λ (x : World × Code). Keeps w x.0) _ (update_call_details_info slot report w2, _) _ r3
      (start v)
