-- ===== src/Requests/Pending.antt =====
-- The hang-up of a call that the network has not named yet, from the request to the cellular stack.
use telephony_call_manager_m.Prelude.{
  ℕ, ◌≡◌, refl, sym, subst, ap, ◌∙◌, true, false, none, some, ◌∷◌,
}
use telephony_call_manager_m.Prelude.Eq.{◌==◌, ==_refl, nat_eq}
use telephony_call_manager_m.Prelude.Int.{ℤ, pos, ltb_ℤ, int_eq}
use telephony_call_manager_m.Types.{RunningState, TelCallState, Code, running_eq, call_type_eq}
use telephony_call_manager_m.Policy.{hang_up_policy}
use telephony_call_manager_m.EventLoop.{Loop}
use telephony_call_manager_m.CallTable.Runs.{if_both}
use telephony_call_manager_m.Service.{
  World, Env, Event, Request, CellularCallInfo, send, pack_cellular_call_info,
}
use telephony_call_manager_m.Service.Pending.{
  Helper, Task, has_pending_mo, has_pending_hangup, set_pending_hangup, set_pending_mo,
  post_pending_hangup_protect_task, remove_pending_hangup_protect_task,
}
use telephony_call_manager_m.Carrier.{
  call_at, info_at, supplement_of, carrier_hang_up_call, send_or,
}
use telephony_call_manager_m.Reports.Calls.{
  clear_pending_state, clear_pending_hangup, clear_pending_mo,
}
use telephony_call_manager_m.Call.{Call}
use telephony_call_manager_m.Status.{CallDetailInfo}
use telephony_call_manager_m.CallTable.Queries.{get_one_call_object_by_index}
use telephony_call_manager_m.Reports.Dialing.{init_index, find_reported, update_dialing_handle}
use telephony_call_manager_m.Reports.Handle.{handle_call_report_info}
use telephony_call_manager_m.Requests.Dialed.{IsNamed, handle_call_report_info_names}
use telephony_call_manager_m.Requests.Control.{
  invalid_call_id, hang_up_target, hang_up_call, hang_up_later,
}

-- The waiting hang-up, in the flags.
later-pending :
    (env : Env) (id : ℤ) (w : World)
    → (has_pending_hangup id (hang_up_later env id w).0.helper ≡ true)
      × (has_pending_mo id (hang_up_later env id w).0.helper ≡ false)
unfolding hang_up_later has_pending_hangup has_pending_mo post_pending_hangup_protect_task
    set_pending_hangup set_pending_mo
later-pending env id w =
    if_both
      (λ (x : Helper × Loop Task).
        (has_pending_hangup id x.0 ≡ true) × (has_pending_mo id x.0 ≡ false))
      (w.helper.pending_hangup_task_id == 0) _ _ (==_refl id, refl) (==_refl id, refl)

hang_up_call_later :
    (env : Env) (id : ℤ) (w : World)
    → (id == invalid_call_id) ≡ false
    → hang_up_policy id w.table ≡ Code.success
    → has_pending_mo id w.helper ≡ true
    → hang_up_call env id w ≡ hang_up_later env id w
unfolding hang_up_call hang_up_target
hang_up_call_later env id w ne ok mo = rw (ne, ne, ok, mo) refl

cleared-none :
    (env : Env) (id : ℤ) (w : World)
    → has_pending_hangup id (clear_pending_hangup env w).helper ≡ false
unfolding clear_pending_hangup has_pending_hangup remove_pending_hangup_protect_task
    set_pending_hangup
cleared-none env id w =
    if_both (λ (x : Helper × Loop Task). has_pending_hangup id x.0 ≡ false)
      (w.helper.pending_hangup_task_id == 0) _ _ refl refl

hang_up-log :
    (env : Env) (p : ℕ) (w : World)
    → env.registered w.log ≡ true
    → (carrier_hang_up_call env p w).0.log
      ≡ Event.sent (Request.hang_up (info_at p w) (supplement_of (call_at p w).policy_flag)) ∷ w.log
unfolding carrier_hang_up_call send_or send
hang_up-log env p w r = rw r refl

clear-waiting :
    (env : Env) (p : ℕ) (w : World)
    → has_pending_hangup (call_at p w).call_id w.helper ≡ true
    → has_pending_mo (call_at p w).call_id w.helper ≡ false
    → ((call_at p w).running_state == RunningState.ended) ≡ false
    → clear_pending_state env p w ≡ clear_pending_hangup env (carrier_hang_up_call env p w).0
unfolding clear_pending_state clear_pending_mo
clear-waiting env p w waits no_mo up = rw (no_mo, waits, up) refl

-- What the stack is asked, and the flags, once the report of the call at an address was taken.
clear_pending_state-hangs_up :
    (env : Env) (p : ℕ) (index : ℤ) (c : Call) (w : World)
    → IsNamed index c (call_at p w)
    → has_pending_hangup c.call_id w.helper ≡ true
    → has_pending_mo c.call_id w.helper ≡ false
    → env.registered w.log ≡ true
    → let u = clear_pending_state env p w in
      ((r : CellularCallInfo) × (u.log
          ≡ Event.sent (Request.hang_up r (supplement_of c.policy_flag)) ∷ w.log)
        × (r.call_id ≡ c.call_id)
        × (r.index ≡ index))
      × (has_pending_hangup c.call_id u.helper ≡ false)
unfolding clear_pending_hangup pack_cellular_call_info
clear_pending_state-hangs_up env p index c w n waits no_mo up =
    let d = call_at p w in
    let waits_d = subst (λ i. has_pending_hangup i w.helper ≡ true) (sym n.same_id) waits in
    let no_mo_d = subst (λ i. has_pending_mo i w.helper ≡ false) (sym n.same_id) no_mo in
    let alive : (d.running_state == RunningState.ended) ≡ false = rw n.dials refl in
    let cleared = clear-waiting env p w waits_d no_mo_d alive in
    let sent = hang_up-log env p w up in
    rw cleared (
      (
        info_at p w,
        subst
            (λ f.
              (carrier_hang_up_call env p w).0.log
              ≡ Event.sent (Request.hang_up (info_at p w) (supplement_of f)) ∷ w.log)
            n.same_flags sent,
        n.same_id,
        n.has_index,
      ),
      cleared-none env c.call_id (carrier_hang_up_call env p w).0,
    )

-- A call is dialed and has no index yet; a hang-up of it is asked for, and the policy lets that through.
-- Then the request succeeds at once and sends nothing. A report of `CALL_STATUS_DIALING` comes in that
-- gives this call its index: a positive index that no call has, of a slot and a type in which a dialed
-- call waits for one, of which the table's first call without an index is this one and has the
-- report's type. The report's handler succeeds, and it asks the cellular stack, which is registered,
-- for one thing: to hang up this very call under the reported index, with the supplement of its policy
-- flags. No hang-up of the call waits any more.
pub hang_up_call_then_report :
    (env : Env) (info : CallDetailInfo) (p : ℕ) (w : World)
    → let c = call_at p w in
      let (w1, code) = hang_up_call env c.call_id w in
      let (w2, taken) = handle_call_report_info env info w1 in
      (c.call_id == invalid_call_id) ≡ false
      → hang_up_policy c.call_id w.table ≡ Code.success
      → has_pending_mo c.call_id w.helper ≡ true
      → env.registered w.log ≡ true
      → info.state ≡ TelCallState.dialing
      → ltb_ℤ (pos 0) info.index ≡ true
      → update_dialing_handle info w.table ≡ true
      → find_reported info w.table ≡ none
      → get_one_call_object_by_index init_index w.table ≡ some p
      → (c.call_type == info.call_type) ≡ true
      → ((code ≡ Code.success) × (w1.log ≡ w.log))
        × (taken ≡ Code.success)
        × ((r : CellularCallInfo) × (w2.log
              ≡ Event.sent (Request.hang_up r (supplement_of c.policy_flag)) ∷ w.log)
            × (r.call_id ≡ c.call_id)
            × (r.index ≡ info.index))
        × (has_pending_hangup c.call_id w2.helper ≡ false)
unfolding hang_up_later
hang_up_call_then_report env info p w ne ok mo on dials up known new first same =
    let c = call_at p w in
    let w1 = (hang_up_later env c.call_id w).0 in
    let (waits, no_mo) = later-pending env c.call_id w in
    let (w2, e, same_log, same_helper, n) =
      handle_call_report_info_names env info p w1 dials up known new first same in
    let waits_2 = subst (λ h. has_pending_hangup c.call_id h ≡ true) (sym same_helper) waits in
    let no_mo_2 = subst (λ h. has_pending_mo c.call_id h ≡ false) (sym same_helper) no_mo in
    let on_2 = subst (λ l. env.registered l ≡ true) (sym same_log) on in
    let asks = clear_pending_state-hangs_up env p info.index c w2 n waits_2 no_mo_2 on_2 in
    let ((r, sent, same_id, same_index), none_left) = asks in
    let sent_1 =
      sent ∙ ap (λ l. Event.sent (Request.hang_up r (supplement_of c.policy_flag)) ∷ l) same_log in
    rw (hang_up_call_later env c.call_id w ne ok mo, e)
      ((refl, refl), refl, (r, sent_1, same_id, same_index), none_left)
