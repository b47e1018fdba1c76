-- ===== src/Requests.antt =====
-- services/call/src/mini/call_request_process.cpp, call_request_handler.cpp and the requests of
-- call_control_manager.cpp: what the applications ask for, which the control manager checks and posts to
-- the main loop, and what the posted task does.
pub mod Dial
pub mod Control
pub mod Keeps
pub mod Entries
pub mod Entry
pub mod DialKeeps
pub mod Checks
pub mod Turn
pub mod Delivery
pub mod TurnKeeps
pub mod Whole
pub mod Dialed
pub mod Pending
mod Tests
use telephony_call_manager_m.Prelude.{
  ℕ, Bool, true, false, not, ◌&&◌, ◌||◌, List, [], ◌∷◌, Option, none, some, if◌then◌else◌, leb,
  length,
}
use telephony_call_manager_m.Prelude.Eq.{◌==◌, nat_eq}
use telephony_call_manager_m.Prelude.Int.{ℤ, int_eq}
use telephony_call_manager_m.Types.{
  TelCallState, RunningState, TelConferenceState, Bytes, Code, is_success, tel_eq,
  tel_conference_eq,
}
use telephony_call_manager_m.Call.{Call, set_policy_flag}
use telephony_call_manager_m.CallTable.{CallTable}
use telephony_call_manager_m.CallTable.Queries.{
  get_one_call_object, get_call_in, is_typed_call_exist,
}
use telephony_call_manager_m.CallTable.Scans.{get_call_num, get_carrier_call_list}
use telephony_call_manager_m.Service.{World, Env, Event, edit, emit}
use telephony_call_manager_m.Service.Pending.{
  Task, restore_dialing_flag, has_pending_hangup, set_pending_hangup, no_call,
}
use telephony_call_manager_m.Carrier.{
  call_at, answer_call, carrier_reject_call, carrier_hang_up_call, carrier_hold_call,
  carrier_un_hold_call, carrier_switch_call, flag_hang_up_active, flag_hang_up_hold_wait,
}
use telephony_call_manager_m.Reports.Disconnect.{deal_fail_dial}
use telephony_call_manager_m.Callback.{
  update_call_report_info, update_calls_report_info, update_disconnected_cause,
  update_event_result_info, update_local_alerting,
}

-- The call with an id, and nothing if there is none.
unfoldable pub on_call : ℤ → (ℕ → World → World) → World → World
on_call id f w = elim (get_one_call_object id w.table) [ none ↦ w | some p ↦ f p w ]

-- The flag of a hang-up: the active call while another is held, or a conference.
unfoldable pub hang_up_flag : Call → CallTable → Option ℕ
hang_up_flag c t =
    let nobody_waits = get_call_num TelCallState.waiting t == 0 in
    let beside_held =
      c.call_state == TelCallState.active
      && is_typed_call_exist c.call_type TelCallState.holding t in
    if (beside_held || c.conference_state == TelConferenceState.active) && nobody_waits
    then some flag_hang_up_active
    else if c.conference_state == TelConferenceState.holding && nobody_waits
    then some flag_hang_up_hold_wait
    else none

unfoldable pub set_hang_up_flag : ℕ → World → World
unfolding edit hang_up_flag
set_hang_up_flag p w = elim (hang_up_flag (call_at p w) w.table) [
  | none ↦ w
  | some flag ↦ edit p (set_policy_flag flag) w
]

-- `IsExistCallOtherSlot`, turned round: no carrier call is on another slot.
unfoldable pub no_call_on_other_slot : ℤ → CallTable → List ℤ → Bool
no_call_on_other_slot slot t [] = true
no_call_on_other_slot slot t (id ∷ ids) =
    let rest = no_call_on_other_slot slot t ids in
    elim (get_one_call_object id t) [
      | none ↦ rest
      | some p ↦ if (t.heap p).slot_id == slot then rest else false
    ]

unfoldable pub can_un_hold : ℤ → CallTable → Bool
unfolding no_call_on_other_slot
can_un_hold slot t =
    let ids = get_carrier_call_list t in
    if leb 2 (length ids) then no_call_on_other_slot slot t ids else true

module _ (env : Env) where
  unfoldable pub answer_at : ℤ → Bool → ℕ → World → World
  unfolding edit emit
  answer_at video_state is_rtt p w =
      let w1 = edit p (λ c. record c { answer_video_state = video_state }) w in
      let (w2, code) = answer_call env p video_state is_rtt w1 in
      if is_success code then emit (Event.incoming_answered p) w2 else w2

  unfoldable pub answer_request : ℤ → ℤ → Bool → World → World
  unfolding on_call answer_at
  answer_request id video_state is_rtt w = on_call id (answer_at video_state is_rtt) w

  -- A call that is held beside a rejected one is not resumed by itself.
  unfoldable pub keep_on_hold : World → World
  unfolding edit
  keep_on_hold w = elim (get_call_in RunningState.hold w.table) [
    | none ↦ w
    | some q ↦ edit q (λ c. record c { can_un_hold_state = false }) w
  ]

  unfoldable pub reject_at : Bool → Bytes → ℕ → World → World
  unfolding keep_on_hold emit
  reject_at is_send_sms content p w =
      let (w1, code) = carrier_reject_call env p w in
      if is_success code
      then emit (Event.incoming_rejected p is_send_sms content) (keep_on_hold w1)
      else w1

  unfoldable pub reject_request : ℤ → Bool → Bytes → World → World
  unfolding on_call reject_at
  reject_request id is_send_sms content w = on_call id (reject_at is_send_sms content) w

  unfoldable pub hang_up_at : ℕ → World → World
  unfolding set_hang_up_flag
  hang_up_at p w = (carrier_hang_up_call env p (set_hang_up_flag p w)).0

  unfoldable pub hang_up_request : ℤ → World → World
  unfolding on_call hang_up_at
  hang_up_request id w = on_call id hang_up_at w

  unfoldable pub hold_request : ℤ → World → World
  unfolding on_call
  hold_request id w = on_call id (λ p u. (carrier_hold_call env p u).0) w

  unfoldable pub un_hold_at : ℕ → World → World
  unfolding edit can_un_hold
  un_hold_at p w =
      let w1 = edit p (λ c. record c { can_un_hold_state = true }) w in
      if can_un_hold (call_at p w1).slot_id w1.table then (carrier_un_hold_call env p w1).0 else w1

  unfoldable pub un_hold_request : ℤ → World → World
  unfolding on_call un_hold_at
  un_hold_request id w = on_call id un_hold_at w

  unfoldable pub switch_request : ℤ → World → World
  unfolding on_call
  switch_request id w = on_call id (λ p u. (carrier_switch_call env p u).0) w

  -- The task of `PostPendingHangupProtectTask`: the report of the call never came.
  unfoldable pub pending_hangup_timeout : ℤ → World → World
  pending_hangup_timeout id w =
      let h = record (w.helper) { pending_hangup_task_id = 0 } in
      let w1 = record w { helper = h } in
      let w2 : World = elim (get_one_call_object id w1.table) [
        | none ↦ w1
        | some p ↦ (deal_fail_dial env p w1).0
      ] in
      if has_pending_hangup id h
      then record w2 { helper = set_pending_hangup false no_call w2.helper }
      else w1

  -- The task of `SetDialingCallProcessing`: the dial has taken too long to show.
  unfoldable pub restore_dialing : World → World
  restore_dialing w = record w {
    helper = restore_dialing_flag false (record (w.helper) { restore_task_id = 0 });
  }

  -- A task of the main loop.
  unfoldable pub run_task : Task → World → World
  unfolding answer_request reject_request hang_up_request hold_request un_hold_request
      switch_request pending_hangup_timeout restore_dialing
  run_task Task.restore_dialing w = restore_dialing w
  run_task (Task.pending_hangup_timeout id) w = pending_hangup_timeout id w
  run_task (Task.answer_request id video_state is_rtt) w = answer_request id video_state is_rtt w
  run_task (Task.reject_request id is_send_sms content) w = reject_request id is_send_sms content w
  run_task (Task.hang_up_request id) w = hang_up_request id w
  run_task (Task.hold_request id) w = hold_request id w
  run_task (Task.un_hold_request id) w = un_hold_request id w
  run_task (Task.switch_request id) w = switch_request id w
  run_task (Task.call_report r) w = (update_call_report_info env r w).0
  run_task (Task.calls_report slot rs) w = (update_calls_report_info env slot rs w).0
  run_task (Task.disconnected_cause reason) w = (update_disconnected_cause reason w).0
  run_task (Task.event_result kind id) w = (update_event_result_info env kind id w).0
  run_task Task.local_alerting w = (update_local_alerting w).0
  run_task Task.network_alerting w = w
