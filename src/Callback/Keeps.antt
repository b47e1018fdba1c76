-- ===== src/Callback/Keeps.antt =====
-- The posted reports as runs of the table's steps.
use telephony_call_manager_m.Prelude.{
  ℕ, not, List, if◌then◌else◌, inl, inr, Option-cases, leb, length, map,
}
use telephony_call_manager_m.Prelude.Eq.{◌==◌, nat_eq}
use telephony_call_manager_m.Prelude.Int.{ℤ, pos, int_eq}
use telephony_call_manager_m.Types.{RunningState, CallClass, Code}
use telephony_call_manager_m.CallTable.Reserve.{Inv}
use telephony_call_manager_m.CallTable.Reach.{Step}
use telephony_call_manager_m.CallTable.Queries.{get_call_in}
use telephony_call_manager_m.CallTable.Runs.{start, step, followed_by, if_both}
use telephony_call_manager_m.Service.{World, Env, Event, notify_call_destroyed}
use telephony_call_manager_m.Carrier.{call_at}
use telephony_call_manager_m.Status.Reported.{CallReportInfo, detail_of, single_detail_of}
use telephony_call_manager_m.Reports.Handle.{handle_call_report_info}
use telephony_call_manager_m.Reports.Diff.{handle_calls_report_info}
use telephony_call_manager_m.Reports.Keeps.{Keeps, emit-Keeps}
use telephony_call_manager_m.Reports.DisconnectKeeps.{deal_fail_dial-Keeps}
use telephony_call_manager_m.Reports.HandleKeeps.{
  handle_call_report_info-Keeps, handle_calls_report_info-Keeps,
}
use telephony_call_manager_m.Callback.{
  event_dial_no_carrier, event_combine_call_failed, event_hold_call_failed, request_result_type,
  normal_clearing, event_of_result, combine_failed_of, combine_failed, hold_failed, notify_event,
  fail_dialing_call, handle_event_result_report_info, handle_disconnected_cause, when_reporting,
  update_call_report_info, update_calls_report_info, update_disconnected_cause,
  update_event_result_info,
}

abbrev FirstKeeps : World → World × Code → Type 0
FirstKeeps w x = Keeps w x.0

combine_failed_of-Keeps :
    (k : CallClass) (w : World) → Inv w.table → Keeps w (combine_failed_of k w)
unfolding combine_failed_of
combine_failed_of-Keeps CallClass.cs_call w v = start v
combine_failed_of-Keeps CallClass.ims_call w v = start v

combine_failed-Keeps : (w : World) → Inv w.table → Keeps w (combine_failed w)
unfolding combine_failed
combine_failed-Keeps w v = elim (Option-cases (get_call_in RunningState.active w.table)) [
  | inl e ↦ rw (e, combine_failed) (start v)
  | inr (p, e) ↦ rw (e, combine_failed) (combine_failed_of-Keeps (call_at p w).call_class w v)
]

notify_event-Keeps : (id : ℕ) (w : World) → Inv w.table → Keeps w (notify_event id w).0
unfolding notify_event
notify_event-Keeps id w v =
    let k = FirstKeeps w in
    if_both k (id == event_dial_no_carrier) _ _
      (if_both k (leb (length w.last_dial.number) 255) _ (w, _) (emit-Keeps _ w v) (start v))
      (if_both k (id == event_combine_call_failed) _ _
        (followed_by (combine_failed-Keeps w v) (emit-Keeps _ (combine_failed w)))
        (if_both k (id == event_hold_call_failed) _ _
          (followed_by (step (start v) Step.waits_no_more) (emit-Keeps _ (hold_failed w)))
          (emit-Keeps _ w v)))

fail_dialing_call-Keeps : (env : Env) (w : World) → Inv w.table → Keeps w (fail_dialing_call env w)
unfolding fail_dialing_call
fail_dialing_call-Keeps env w v = elim (Option-cases (get_call_in RunningState.dialing w.table)) [
  | inl e ↦ rw (e, fail_dialing_call) (start v)
  | inr (p, e) ↦ rw (e, fail_dialing_call) (deal_fail_dial-Keeps env p w v)
]

handle_event_result_report_info-Keeps :
    (env : Env) (kind id : ℤ) (w : World)
    → Inv w.table
    → Keeps w (handle_event_result_report_info env kind id w).0
unfolding handle_event_result_report_info
handle_event_result_report_info-Keeps env kind id w v =
    let w1 = fail_dialing_call env w in
    let r1 = fail_dialing_call-Keeps env w v in
    if_both (FirstKeeps w) (not (kind == request_result_type)) (w, _) _ (start v)
      (elim (Option-cases (event_of_result id)) [
        | inl e ↦ rw e r1
        | inr (k, e) ↦ rw e (followed_by r1 (notify_event-Keeps k w1))
      ])

when_reporting-Keeps :
    (f : World → World × Code) (w : World)
    → Keeps w (f w).0
    → Inv w.table
    → Keeps w (when_reporting f w).0
unfolding when_reporting
when_reporting-Keeps f w r v =
    if_both (FirstKeeps w) w.reporting (f w) (w, Code.local_ptr_null) r (start v)

pub update_call_report_info-Keeps :
    (env : Env) (r : CallReportInfo) (w : World)
    → Inv w.table
    → Keeps w (update_call_report_info env r w).0
unfolding update_call_report_info
update_call_report_info-Keeps env r w v =
    when_reporting-Keeps (handle_call_report_info env (single_detail_of r)) w
      (handle_call_report_info-Keeps env (single_detail_of r) w v) v

pub update_calls_report_info-Keeps :
    (env : Env) (slot : ℤ) (rs : List CallReportInfo) (w : World)
    → Inv w.table
    → Keeps w (update_calls_report_info env slot rs w).0
unfolding update_calls_report_info
update_calls_report_info-Keeps env slot rs w v =
    when_reporting-Keeps (handle_calls_report_info env slot (map detail_of rs)) w
      (handle_calls_report_info-Keeps env slot (map detail_of rs) w v) v

pub update_disconnected_cause-Keeps :
    (reason : ℤ) (w : World) → Inv w.table → Keeps w (update_disconnected_cause reason w).0
unfolding update_disconnected_cause handle_disconnected_cause notify_call_destroyed
update_disconnected_cause-Keeps reason w v =
    let r = if reason == pos 0 then normal_clearing else reason in
    when_reporting-Keeps (handle_disconnected_cause r) w (emit-Keeps (Event.call_destroyed r) w v) v

pub update_event_result_info-Keeps :
    (env : Env) (kind id : ℤ) (w : World)
    → Inv w.table
    → Keeps w (update_event_result_info env kind id w).0
unfolding update_event_result_info
update_event_result_info-Keeps env kind id w v =
    when_reporting-Keeps (handle_event_result_report_info env kind id) w
      (handle_event_result_report_info-Keeps env kind id w v) v
