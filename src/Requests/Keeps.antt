-- ===== src/Requests/Keeps.antt =====
-- Every request and every task as a run of the table's steps; with the reports, the service as a whole.
use telephony_call_manager_m.Prelude.{
  ℕ, refl, Bool, true, false, Option, none, some, inl, inr, Option-cases,
}
use telephony_call_manager_m.Prelude.Int.{ℤ}
use telephony_call_manager_m.Types.{Bytes, Code}
use telephony_call_manager_m.Call.{set_policy_flag}
use telephony_call_manager_m.CallTable.Reserve.{Inv}
use telephony_call_manager_m.CallTable.Runs.{start, followed_by, if_both}
use telephony_call_manager_m.CallTable.Queries.{get_one_call_object, get_call_in}
use telephony_call_manager_m.Types.{RunningState}
use telephony_call_manager_m.Service.{World, Env, Event, edit, emit}
use telephony_call_manager_m.Service.Pending.{Task}
use telephony_call_manager_m.Carrier.{
  call_at, answer_call, carrier_answer_call, carrier_reject_call, carrier_hold_call,
  carrier_un_hold_call, carrier_switch_call, send_or,
}
use telephony_call_manager_m.Reports.Disconnect.{deal_fail_dial}
use telephony_call_manager_m.Reports.Keeps.{
  Keeps, send-Keeps, emit-Keeps, edit-Keeps, carrier_reject_call-Keeps, carrier_hang_up_call-Keeps,
  carrier_un_hold_call-Keeps,
}
use telephony_call_manager_m.Reports.DisconnectKeeps.{deal_fail_dial-Keeps}
use telephony_call_manager_m.Callback.{update_local_alerting}
use telephony_call_manager_m.Callback.Keeps.{
  update_call_report_info-Keeps, update_calls_report_info-Keeps, update_disconnected_cause-Keeps,
  update_event_result_info-Keeps,
}
use telephony_call_manager_m.Requests.{
  on_call, hang_up_flag, set_hang_up_flag, answer_at, answer_request, keep_on_hold, reject_at,
  reject_request, hang_up_at, hang_up_request, hold_request, un_hold_at, un_hold_request,
  switch_request, pending_hangup_timeout, restore_dialing, run_task,
}

on_call-Keeps :
    (id : ℤ) (f : ℕ → World → World) (w : World)
    → ((p : ℕ) (u : World) → Inv u.table → Keeps u (f p u))
    → Inv w.table
    → Keeps w (on_call id f w)
unfolding on_call
on_call-Keeps id f w k v = elim (Option-cases (get_one_call_object id w.table)) [
  | inl e ↦ rw (e, on_call) (start v)
  | inr (p, e) ↦ rw (e, on_call) (k p w v)
]

answer_call-Keeps :
    (env : Env) (p : ℕ) (s : ℤ) (b : Bool) (w : World)
    → Inv w.table
    → Keeps w (answer_call env p s b w).0
unfolding answer_call carrier_answer_call send_or
answer_call-Keeps env p s b w v =
    if_both (λ (x : World × Code). Keeps w x.0) _ _ (w, _) (send-Keeps env _ w v) (start v)

answer_at-Keeps :
    (env : Env) (s : ℤ) (b : Bool) (p : ℕ) (w : World)
    → Inv w.table
    → Keeps w (answer_at env s b p w)
unfolding answer_at
answer_at-Keeps env s b p w v =
    let w1 = edit p (λ c. record c { answer_video_state = s }) w in
    let w2 = (answer_call env p s b w1).0 in
    let r1 = edit-Keeps p (λ c. record c { answer_video_state = s }) w refl refl v in
    let r2 = followed_by r1 (answer_call-Keeps env p s b w1) in
    if_both (Keeps w) _ (emit (Event.incoming_answered p) w2) w2 (followed_by r2 (emit-Keeps _ w2))
      r2

keep_on_hold-Keeps : (env : Env) (w : World) → Inv w.table → Keeps w (keep_on_hold env w)
unfolding keep_on_hold
keep_on_hold-Keeps env w v = elim (Option-cases (get_call_in RunningState.hold w.table)) [
  | inl e ↦ rw (e, keep_on_hold) (start v)
  | inr (q, e) ↦
      rw (e, keep_on_hold)
        (edit-Keeps q (λ c. record c { can_un_hold_state = false }) w refl refl v)
]

reject_at-Keeps :
    (env : Env) (b : Bool) (s : Bytes) (p : ℕ) (w : World)
    → Inv w.table
    → Keeps w (reject_at env b s p w)
unfolding reject_at
reject_at-Keeps env b s p w v =
    let w1 = (carrier_reject_call env p w).0 in
    let w2 = keep_on_hold env w1 in
    let r1 = carrier_reject_call-Keeps env p w v in
    let r2 = followed_by r1 (keep_on_hold-Keeps env w1) in
    if_both (Keeps w) _ (emit (Event.incoming_rejected p b s) w2) w1
      (followed_by r2 (emit-Keeps _ w2)) r1

set_hang_up_flag-Keeps : (p : ℕ) (w : World) → Inv w.table → Keeps w (set_hang_up_flag p w)
unfolding set_hang_up_flag
set_hang_up_flag-Keeps p w v = elim (Option-cases (hang_up_flag (call_at p w) w.table)) [
  | inl e ↦ rw (e, set_hang_up_flag) (start v)
  | inr (flag, e) ↦
      rw (e, set_hang_up_flag)
        (edit-Keeps p (set_policy_flag flag) w (unfold set_policy_flag in refl)
          (unfold set_policy_flag in refl) v)
]

hang_up_at-Keeps : (env : Env) (p : ℕ) (w : World) → Inv w.table → Keeps w (hang_up_at env p w)
unfolding hang_up_at
hang_up_at-Keeps env p w v =
    followed_by (set_hang_up_flag-Keeps p w v)
      (carrier_hang_up_call-Keeps env p (set_hang_up_flag p w))

un_hold_at-Keeps : (env : Env) (p : ℕ) (w : World) → Inv w.table → Keeps w (un_hold_at env p w)
unfolding un_hold_at
un_hold_at-Keeps env p w v =
    let w1 = edit p (λ c. record c { can_un_hold_state = true }) w in
    let r = edit-Keeps p (λ c. record c { can_un_hold_state = true }) w refl refl v in
    if_both (Keeps w) _ (carrier_un_hold_call env p w1).0 w1
      (followed_by r (carrier_un_hold_call-Keeps env p w1)) r

fail_timed_out-Keeps :
    (env : Env) (o : Option ℕ) (w : World)
    → Inv w.table
    → Keeps w (elim o [ none ↦ w | some p ↦ (deal_fail_dial env p w).0 ])
fail_timed_out-Keeps env none w v = start v
fail_timed_out-Keeps env (some p) w v = deal_fail_dial-Keeps env p w v

pending_hangup_timeout-Keeps :
    (env : Env) (id : ℤ) (w : World) → Inv w.table → Keeps w (pending_hangup_timeout env id w)
unfolding pending_hangup_timeout
pending_hangup_timeout-Keeps env id w v =
    let w1 = record w { helper = record (w.helper) { pending_hangup_task_id = 0 } } in
    if_both (Keeps w) _ _ w1 (fail_timed_out-Keeps env (get_one_call_object id w1.table) w1 v)
      (start v)

carrier_hold_call-Keeps :
    (env : Env) (p : ℕ) (w : World) → Inv w.table → Keeps w (carrier_hold_call env p w).0
unfolding carrier_hold_call send_or
carrier_hold_call-Keeps env p w v = send-Keeps env _ w v

carrier_switch_call-Keeps :
    (env : Env) (p : ℕ) (w : World) → Inv w.table → Keeps w (carrier_switch_call env p w).0
unfolding carrier_switch_call send_or
carrier_switch_call-Keeps env p w v = send-Keeps env _ w v

pub run_task-Keeps : (env : Env) (k : Task) (w : World) → Inv w.table → Keeps w (run_task env k w)
unfolding run_task answer_request reject_request hang_up_request hold_request un_hold_request
    switch_request restore_dialing
run_task-Keeps env Task.restore_dialing w v = start v
run_task-Keeps env (Task.pending_hangup_timeout id) w v = pending_hangup_timeout-Keeps env id w v
run_task-Keeps env (Task.answer_request id s b) w v =
    on_call-Keeps id (answer_at env s b) w (answer_at-Keeps env s b) v
run_task-Keeps env (Task.reject_request id b s) w v =
    on_call-Keeps id (reject_at env b s) w (reject_at-Keeps env b s) v
run_task-Keeps env (Task.hang_up_request id) w v =
    on_call-Keeps id (hang_up_at env) w (hang_up_at-Keeps env) v
run_task-Keeps env (Task.hold_request id) w v =
    on_call-Keeps id (λ p u. (carrier_hold_call env p u).0) w (carrier_hold_call-Keeps env) v
run_task-Keeps env (Task.un_hold_request id) w v =
    on_call-Keeps id (un_hold_at env) w (un_hold_at-Keeps env) v
run_task-Keeps env (Task.switch_request id) w v =
    on_call-Keeps id (λ p u. (carrier_switch_call env p u).0) w (carrier_switch_call-Keeps env) v
run_task-Keeps env (Task.call_report r) w v = update_call_report_info-Keeps env r w v
run_task-Keeps env (Task.calls_report slot rs) w v = update_calls_report_info-Keeps env slot rs w v
run_task-Keeps env (Task.disconnected_cause reason) w v = update_disconnected_cause-Keeps reason w v
run_task-Keeps env (Task.event_result kind id) w v = update_event_result_info-Keeps env kind id w v
run_task-Keeps env Task.local_alerting w v = unfold update_local_alerting in start v
run_task-Keeps env Task.network_alerting w v = start v
