-- ===== src/Reports/Handle.antt =====
-- `HandleCallReportInfo`: the report of one call, by its state, with `FilterResultsDispose` of
-- call_status_policy.cpp. `callReportInfo_`, which nothing reads, is left out.
use telephony_call_manager_m.Prelude.{
  ℕ, Bool, true, false, not, ◌&&◌, ◌||◌, none, some, if◌then◌else◌, leb, length,
}
use telephony_call_manager_m.Prelude.Eq.{◌==◌}
use telephony_call_manager_m.Prelude.Int.{pos, int_eq}
use telephony_call_manager_m.Types.{
  TelCallState, RunningState, CallDirection, Code, is_success, tel_eq, running_eq, call_type_eq,
  video_eq,
}
use telephony_call_manager_m.Call.{Call, set_tel_call_state, incoming_call_base}
use telephony_call_manager_m.CallTable.{add_one_call_object}
use telephony_call_manager_m.CallTable.Queries.{get_one_call_object_by_index, get_call_in}
use telephony_call_manager_m.CallTable.Scans.{has_ringing_maximum, has_dialing_maximum}
use telephony_call_manager_m.Status.{CallDetailInfo, create_new_call}
use telephony_call_manager_m.Service.{World, Env, edit, notify_new_call_created}
use telephony_call_manager_m.Carrier.{call_at, carrier_hang_up_call, carrier_reject_call}
use telephony_call_manager_m.Reports.Calls.{
  update_call_state, clear_pending_state, refresh, exit_conference, hold_conference_at,
  set_original_call_type_for_active_state, set_original_call_type_for_disconnect_state,
  get_conference_call_list, set_conference_call,
}
use telephony_call_manager_m.Reports.Dialing.{
  init_index, find_reported, find_or_refresh, dialing_handle,
}
use telephony_call_manager_m.Reports.Disconnect.{Handler, disconnected_handle, deal_fail_dial}

unfoldable pub can_switch_held : World → World
unfolding edit
can_switch_held w = elim (get_call_in RunningState.hold w.table) [
  | none ↦ w
  | some q ↦ edit q (λ c. record c { can_switch_call_state = true }) w
]

unfoldable pub differs : CallDetailInfo → Call → Bool
differs info c = not (c.call_type == info.call_type) || not (c.video_state == info.call_mode)

module _ (env : Env) where
  -- One call too many that rings or is dialed is hung up.
  unfoldable pub filter_results_dispose : ℕ → World → World × Code
  unfolding edit
  filter_results_dispose p w =
      if has_ringing_maximum w.table || has_dialing_maximum w.table
      then carrier_hang_up_call env p (edit p (λ c. record c { is_ap_cause_reported = true }) w)
      else (notify_new_call_created p (edit p (λ c. (incoming_call_base c).0) w), Code.success)

  unfoldable pub finalize_incoming_state : ℕ → TelCallState → World → World × Code
  unfolding filter_results_dispose
  finalize_incoming_state p next w =
      let (w1, code) = update_call_state env p next w in
      if is_success code then filter_results_dispose p w1 else (w1, code)

  -- Of a call that is there; both results of `SetTelCallState` are let through.
  unfoldable pub handle_reject_call : ℕ → World → World × Code
  unfolding edit
  handle_reject_call p w =
      carrier_reject_call env p
        (edit p (λ c. (set_tel_call_state env.now TelCallState.incoming c).0) w)

  -- `RefreshOldCall`: whether the call is known, and the result.
  unfoldable pub refresh_old_call : CallDetailInfo → World → World × Bool × Code
  unfolding differs
  refresh_old_call info w =
      let w1 : World = elim (get_one_call_object_by_index init_index w.table) [
        | none ↦ w
        | some p ↦ (deal_fail_dial env p w).0
      ] in
      elim (find_reported info w1.table) [
        | none ↦ (w1, false, Code.success)
        | some p ↦
            let c = call_at p w1 in
            let (w2, q) = refresh env info p w1 in
            let (w3, code) = update_call_state env q info.state w2 in
            if differs info c
            then (w3, true, code)
            else if not (c.call_state == info.state)
            then (w2, true, Code.success)
            else (w1, true, Code.success)
      ]

  -- A new call that the table has taken, or has refused.
  unfoldable pub add_incoming_call : CallDetailInfo → World → World × Code
  unfolding finalize_incoming_state handle_reject_call
  add_incoming_call info w =
      let (t, o) = create_new_call env.now w.last_dial info CallDirection.direction_in w.table in
      elim o [
        | none ↦ (record w { table = t }, Code.call_object_is_null)
        | some p ↦
            let (t1, code) = add_one_call_object (some p) t in
            let added = record w { table = t1 } in
            if is_success code
            then finalize_incoming_state p info.state (notify_new_call_created p added)
            else ((handle_reject_call p added).0, code)
      ]

  -- `WaitingHandle` is the same.
  unfoldable pub incoming_handle : Handler
  unfolding refresh_old_call add_incoming_call
  incoming_handle info w =
      let (w1, known, code) = refresh_old_call info w in
      if known
      then (w1, code)
      else if is_success code
      then add_incoming_call info w1
      else (w1, code)

  unfoldable pub active_at : CallDetailInfo → ℕ → World → World × Code
  unfolding can_switch_held
  active_at info p w =
      let (w1, q) = refresh env info p (clear_pending_state env p w) in
      let w2 = set_original_call_type_for_active_state q w1 in
      let members = get_conference_call_list (call_at q w2).slot_id w2 in
      let w3 =
        if info.mpty == pos 1 && leb 2 (length members)
        then set_conference_call env members w2
        else exit_conference q w2 in
      let (w4, code) = update_call_state env q TelCallState.active w3 in
      (if is_success code then can_switch_held w4 else w4, code)

  unfoldable pub active_handle : Handler
  unfolding active_at
  active_handle info w =
      let (w1, o) = find_or_refresh env info w in
      elim o [ none ↦ (w1, Code.local_ptr_null) | some p ↦ active_at info p w1 ]

  unfoldable pub holding_handle : Handler
  holding_handle info w = elim (find_reported info w.table) [
    | none ↦ (w, Code.local_ptr_null)
    | some p ↦
        let (w1, q) = refresh env info p w in
        update_call_state env q TelCallState.holding
          (if info.mpty == pos 1 then hold_conference_at q w1 else w1)
  ]

  unfoldable pub alert_handle : Handler
  alert_handle info w =
      let (w1, o) = find_or_refresh env info w in
      elim o [
        | none ↦ (w1, Code.local_ptr_null)
        | some p ↦
            let w2 = clear_pending_state env p w1 in
            let (w3, q) = refresh env info p w2 in
            if (call_at p w2).call_state == TelCallState.disconnecting
            then (w2, Code.call_state_mismatch_operation)
            else update_call_state env q TelCallState.alerting w3
      ]

  unfoldable pub disconnecting_handle : Handler
  disconnecting_handle info w = elim (find_reported info w.table) [
    | none ↦ (w, Code.local_ptr_null)
    | some p ↦
        let (w1, q) = refresh env info p w in
        update_call_state env q TelCallState.disconnecting
          (set_original_call_type_for_disconnect_state q w1)
  ]

  -- The `switch` of `HandleCallReportInfo` with that of `HandleCallReportInfoEx`.
  unfoldable pub handle_state : TelCallState → Handler
  unfolding active_handle holding_handle alert_handle incoming_handle disconnecting_handle
  handle_state TelCallState.active info w = active_handle info w
  handle_state TelCallState.holding info w = holding_handle info w
  handle_state TelCallState.dialing info w = dialing_handle env info w
  handle_state TelCallState.alerting info w = alert_handle info w
  handle_state TelCallState.incoming info w = incoming_handle info w
  handle_state TelCallState.waiting info w = incoming_handle info w
  handle_state TelCallState.disconnected info w = disconnected_handle env info w
  handle_state TelCallState.disconnecting info w = disconnecting_handle info w
  handle_state _ info w = (w, Code.fail)

  unfoldable pub handle_call_report_info : Handler
  unfolding handle_state
  handle_call_report_info info w = handle_state info.state info w
