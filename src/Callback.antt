-- ===== src/Callback.antt =====
-- services/telephony_interaction/src/mini: call_status_callback_guard.cpp, which the cellular stack calls on
-- its own task and which checks a report and posts it to the main loop; call_status_callback.cpp and
-- report_call_info_handler.cpp, which the posted task goes through; and the reports of
-- services/call/src/mini/call_status_manager.cpp that are not about a call's state.
pub mod Guard
pub mod Keeps
use telephony_call_manager_m.Prelude.{
  ℕ, Bool, true, false, not, List, [], ◌∷◌, Option, none, some, if◌then◌else◌, leb, length, map,
}
use telephony_call_manager_m.Prelude.Eq.{◌==◌, nat_eq}
use telephony_call_manager_m.Prelude.Int.{ℤ, pos, int_eq}
use telephony_call_manager_m.Types.{RunningState, CallClass, Code, Bytes}
use telephony_call_manager_m.CallTable.{CallTable}
use telephony_call_manager_m.CallTable.Queries.{get_call_in}
use telephony_call_manager_m.Conference.{handle_combine_conference_fail_event}
use telephony_call_manager_m.Status.Reported.{CallReportInfo, detail_of, single_detail_of}
use telephony_call_manager_m.Service.{World, Env, Event, emit, notify_call_destroyed}
use telephony_call_manager_m.Carrier.{call_at}
use telephony_call_manager_m.Reports.Disconnect.{deal_fail_dial}
use telephony_call_manager_m.Reports.Handle.{handle_call_report_info}
use telephony_call_manager_m.Reports.Diff.{handle_calls_report_info}

-- `EVENT_REQUEST_RESULT_TYPE`.
abbrev pub request_result_type : ℤ
request_result_type = pos 0

-- `DISCONNECTED_REASON_NORMAL` of the radio, and `NORMAL_CALL_CLEARING`.
abbrev pub normal_clearing : ℤ
normal_clearing = pos 16

-- `CallAbilityEventId`, the values that are used.
abbrev pub event_dial_no_carrier : ℕ
event_dial_no_carrier = 1

abbrev pub event_hold_call_failed : ℕ
event_hold_call_failed = 3

abbrev pub event_swap_call_failed : ℕ
event_swap_call_failed = 4

abbrev pub event_combine_call_failed : ℕ
event_combine_call_failed = 5

abbrev pub event_split_call_failed : ℕ
event_split_call_failed = 6

abbrev pub event_local_alerting : ℕ
event_local_alerting = 23

-- `mEventIdTransferMap_`, by the values of `RequestResultEventId`.
unfoldable pub event_of_result : ℤ → Option ℕ
event_of_result k =
    if k == pos 1
    then some event_dial_no_carrier
    else if k == pos 5
    then some event_hold_call_failed
    else if k == pos 7
    then some event_swap_call_failed
    else if k == pos 8
    then some event_combine_call_failed
    else if k == pos 10
    then some event_split_call_failed
    else none

-- `HandleCombineConferenceFailEvent` of a call, on the conference of its class.
unfoldable pub combine_failed_of : CallClass → World → World
combine_failed_of CallClass.cs_call w = record w {
  cs_conference = handle_combine_conference_fail_event w.cs_conference;
}
combine_failed_of CallClass.ims_call w = record w {
  ims_conference = handle_combine_conference_fail_event w.ims_conference;
}

unfoldable pub combine_failed : World → World
unfolding combine_failed_of
combine_failed w = elim (get_call_in RunningState.active w.table) [
  | none ↦ w
  | some p ↦ combine_failed_of (call_at p w).call_class w
]

abbrev pub hold_failed : World → World
hold_failed w = record w { table = record (w.table) { need_wait_hold = false } }

-- What an event does before the observers hear of it, with the number that it names.
unfoldable pub notify_event : ℕ → World → World × Code
unfolding combine_failed emit
notify_event id w =
    if id == event_dial_no_carrier
    then if leb (length w.last_dial.number) 255
      then (emit (Event.event_updated id w.last_dial.number) w, Code.success)
      else (w, Code.number_out_of_range)
    else if id == event_combine_call_failed
    then (emit (Event.event_updated id []) (combine_failed w), Code.success)
    else if id == event_hold_call_failed
    then (emit (Event.event_updated id []) (hold_failed w), Code.success)
    else (emit (Event.event_updated id []) w, Code.success)

unfoldable pub handle_disconnected_cause : ℤ → World → World × Code
handle_disconnected_cause reason w =
    let (w1, heard) = notify_call_destroyed reason w in
    (w1, if heard then Code.success else Code.phone_callstate_notify_failed)

-- `ReportCallInfoHandler`: without a status manager nothing happens.
unfoldable pub when_reporting : (World → World × Code) → World → World × Code
when_reporting f w = if w.reporting then f w else (w, Code.local_ptr_null)

-- The radio's code for a normal end is replaced.
unfoldable pub update_disconnected_cause : ℤ → World → World × Code
unfolding when_reporting handle_disconnected_cause
update_disconnected_cause reason w =
    when_reporting (handle_disconnected_cause (if reason == pos 0 then normal_clearing else reason))
      w

module _ (env : Env) where
  -- A request failed: the call that is being dialed is given up.
  unfoldable pub fail_dialing_call : World → World
  fail_dialing_call w = elim (get_call_in RunningState.dialing w.table) [
    | none ↦ w
    | some p ↦ (deal_fail_dial env p w).0
  ]

  unfoldable pub handle_event_result_report_info : ℤ → ℤ → World → World × Code
  unfolding fail_dialing_call event_of_result notify_event
  handle_event_result_report_info kind id w =
      let w1 = fail_dialing_call w in
      if not (kind == request_result_type)
      then (w, Code.phone_type_unexpected)
      else elim (event_of_result id) [ none ↦ (w1, Code.success) | some k ↦ notify_event k w1 ]

  unfoldable pub update_call_report_info : CallReportInfo → World → World × Code
  unfolding when_reporting
  update_call_report_info r w = when_reporting (handle_call_report_info env (single_detail_of r)) w

  unfoldable pub update_calls_report_info : ℤ → List CallReportInfo → World → World × Code
  unfolding when_reporting
  update_calls_report_info slot rs w =
      when_reporting (handle_calls_report_info env slot (map detail_of rs)) w

  unfoldable pub update_event_result_info : ℤ → ℤ → World → World × Code
  unfolding when_reporting handle_event_result_report_info
  update_event_result_info kind id w = when_reporting (handle_event_result_report_info kind id) w

-- `UpdateRBTPlayInfo` of the local alerting.
unfoldable pub update_local_alerting : World → World × Code
update_local_alerting w = (record w { log = Event.local_alerting ∷ w.log }, Code.success)
