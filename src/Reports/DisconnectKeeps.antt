-- ===== src/Reports/DisconnectKeeps.antt =====
-- The end of a call as a run of the table's steps.
use telephony_call_manager_m.Prelude.{
  ℕ, zero, suc, ◌<◌, refl, subst, Bool, false, Option, none, some, List, [], ◌∷◌, if◌then◌else◌,
  inl, inr, Option-cases,
}
use telephony_call_manager_m.Prelude.Eq.{◌==◌}
use telephony_call_manager_m.Prelude.Int.{ℤ, int_eq}
use telephony_call_manager_m.Prelude.Search.{Holds}
use telephony_call_manager_m.Types.{
  TelCallState, RunningState, TelConferenceState, Code, tel_conference_eq,
}
use telephony_call_manager_m.CallTable.Reserve.{Inv}
use telephony_call_manager_m.CallTable.Reach.{Step}
use telephony_call_manager_m.CallTable.Runs.{start, step, followed_by, if_both}
use telephony_call_manager_m.CallTable.Queries.{get_one_call_object, get_call_in}
use telephony_call_manager_m.Status.{CallDetailInfo}
use telephony_call_manager_m.Service.{World, Env, Request, edit, send}
use telephony_call_manager_m.Service.Pending.{get_pending_hangup_call_id}
use telephony_call_manager_m.Carrier.{call_at, carrier_un_hold_call}
use telephony_call_manager_m.Reports.Calls.{
  update_call_state, clear_pending_state, clear_pending_hangup, refresh, exit_conference,
  set_original_call_type_for_disconnect_state, get_conference_call_list,
  refresh_call_disconnect_reason,
}
use telephony_call_manager_m.Reports.Dialing.{find_or_refresh}
use telephony_call_manager_m.Reports.Disconnect.{
  Ending, end_call, after_end, Handler, deal_fail_dial_with, delete_call, resumes,
  handle_hold_call_or_auto_answer_call, drop_pending_call, handle_dial_when_holding,
  dial_if_waiting, leave_last, disconnect_at, disconnected_with, disconnected_on,
  disconnected_handle, deal_fail_dial,
}
use telephony_call_manager_m.Reports.Keeps.{
  Keeps, send-Keeps, edit-Keeps, carrier_un_hold_call-Keeps, update_call_state-Keeps,
  clear_pending_state-Keeps, exit_conference-Keeps,
  set_original_call_type_for_disconnect_state-Keeps, refresh_call_disconnect_reason-Keeps,
  refresh-Keeps,
}
use telephony_call_manager_m.Reports.DialingKeeps.{find_or_refresh-Keeps}

-- A handler that keeps the table's invariant.
abbrev pub HandlerKeeps : Handler → Type 0
HandlerKeeps h = (info : CallDetailInfo) (w : World) → Inv w.table → Keeps w (h info w).0

deal_fail_dial_with-Keeps :
    (h : Handler) (p : ℕ) (w : World)
    → HandlerKeeps h
    → Inv w.table
    → Keeps w (deal_fail_dial_with h p w).0
unfolding deal_fail_dial_with
deal_fail_dial_with-Keeps h p w k v =
    if_both (λ (x : World × Code). Keeps w x.0) _ _ _ (k _ w v) (start v)

delete_call-Keeps : (id : ℤ) (w : World) → Inv w.table → Keeps w (delete_call id w)
unfolding delete_call
delete_call-Keeps id w v = step (start v) (Step.deletes id)

handle_hold-Keeps :
    (env : Env) (p size : ℕ) (previous : RunningState) (prior : TelCallState) (w : World)
    → Inv w.table
    → Keeps w (handle_hold_call_or_auto_answer_call env p size previous prior w)
unfolding handle_hold_call_or_auto_answer_call
handle_hold-Keeps env p size previous prior w v =
    elim (Option-cases (get_call_in RunningState.hold w.table)) [
      | inl e ↦ rw (e, handle_hold_call_or_auto_answer_call) (delete_call-Keeps _ w v)
      | inr (q, e) ↦
          let w1 =
            if resumes p size previous prior q w then (carrier_un_hold_call env q w).0 else w in
          rw (e, handle_hold_call_or_auto_answer_call)
            (followed_by
              (if_both (Keeps w) (resumes p size previous prior q w)
                (carrier_un_hold_call env q w).0 w (carrier_un_hold_call-Keeps env q w v) (start v))
              (delete_call-Keeps _ w1))
    ]

drop_pending_call-Keeps :
    (env : Env) (id : ℤ) (w : World) → Inv w.table → Keeps w (drop_pending_call env id w)
unfolding drop_pending_call
drop_pending_call-Keeps env id w v = elim (Option-cases (get_one_call_object id w.table)) [
  | inl e ↦ rw (e, drop_pending_call) (start v)
  | inr (q, e) ↦
      let w1 = (update_call_state env q TelCallState.disconnected w).0 in
      rw (e, drop_pending_call)
        (followed_by (update_call_state-Keeps env q TelCallState.disconnected w v)
          (delete_call-Keeps id w1))
]

-- The two branches of `HandleDialWhenHolding`.
un_hold_found-Keeps :
    (env : Env) (o : Option ℕ) (w : World)
    → Inv w.table
    → Keeps w (elim o [ none ↦ w | some q ↦ (carrier_un_hold_call env q w).0 ])
un_hold_found-Keeps env none w v = start v
un_hold_found-Keeps env (some q) w v = carrier_un_hold_call-Keeps env q w v

fail_found-Keeps :
    (h : Handler) (o : Option ℕ) (ok : Bool) (p : ℕ) (w : World)
    → HandlerKeeps h
    → Inv w.table
    → Keeps w (elim o [ none ↦ w | some q ↦ if ok then w else (deal_fail_dial_with h p w).0 ])
fail_found-Keeps h none ok p w k v = start v
fail_found-Keeps h (some q) ok p w k v =
    if_both (Keeps w) ok w _ (start v) (deal_fail_dial_with-Keeps h p w k v)

handle_dial_when_holding-Keeps :
    (env : Env) (h : Handler) (id : ℤ) (p : ℕ) (w : World)
    → HandlerKeeps h
    → Inv w.table
    → Keeps w (handle_dial_when_holding env h id p w)
unfolding handle_dial_when_holding
handle_dial_when_holding-Keeps env h id p w k v =
    let o = get_one_call_object id w.table in
    let w1 : World = elim o [ none ↦ w | some q ↦ (carrier_un_hold_call env q w).0 ] in
    let dropped = get_pending_hangup_call_id w.helper in
    let r1 = followed_by (un_hold_found-Keeps env o w v) (drop_pending_call-Keeps env dropped w1) in
    let w2 = (send env (Request.dial w.dial_call_info) w).0 in
    let r2 =
      followed_by (send-Keeps env (Request.dial w.dial_call_info) w v)
        (fail_found-Keeps h (get_call_in RunningState.dialing w2.table) _ p w2 k) in
    let w3 = drop_pending_call env dropped w1 in
    let r3 : Keeps w (clear_pending_hangup env w3) = unfold clear_pending_hangup in r1 in
    if_both (Keeps w) _ (clear_pending_hangup env w3) _ r3 r2

dial_if_waiting-Keeps :
    (env : Env) (h : Handler) (p : ℕ) (w : World)
    → HandlerKeeps h
    → Inv w.table
    → Keeps w (dial_if_waiting env h p w)
unfolding dial_if_waiting
dial_if_waiting-Keeps env h p w k v =
    let w1 = record w { table = record (w.table) { need_wait_hold = false } } in
    if_both (Keeps w) _ _ w
      (followed_by (step (start v) Step.waits_no_more)
        (handle_dial_when_holding-Keeps env h (call_at p w).call_id p w1 k))
      (start v)

leave_last-Keeps :
    (env : Env) (slot_id : ℤ) (w : World) → Inv w.table → Keeps w (leave_last env slot_id w)
unfolding leave_last
leave_last-Keeps env slot_id w v = one (get_conference_call_list slot_id w)
  where
    left : ℕ → World
    left q = edit q (λ c. record c { conference_state = TelConferenceState.idle }) w

    one :
        (ps : List ℕ)
        → Keeps w (elim ps [
          | q ∷ [] ↦
              if (call_at q w).conference_state == TelConferenceState.idle
              then w
              else (update_call_state env q (call_at q (left q)).call_state (left q)).0
          | _ ↦ w
        ])
    one [] = start v
    one (q ∷ []) = if_both (Keeps w) _ w _ (start v) (
        followed_by (edit-Keeps q _ w refl refl v)
          (update_call_state-Keeps env q (call_at q (left q)).call_state (left q)))
    one (q ∷ r ∷ rs) = start v

pub end_call-Keeps :
    (env : Env) (info : CallDetailInfo) (p : ℕ) (w : World)
    → Inv w.table
    → p < w.table.next
    → Keeps w (end_call env info p w).0
unfolding end_call
end_call-Keeps env info p w v lt =
    let q = (refresh env info p w).1 in
    let w1 = (refresh env info p w).0 in
    let w2 = refresh_call_disconnect_reason q info.reason info.message w1 in
    let wc = clear_pending_state env q w2 in
    let w3 = set_original_call_type_for_disconnect_state q wc in
    let w4 = exit_conference q w3 in
    let r1 = (refresh-Keeps env info p w v lt).0 in
    let r2 = followed_by r1 (refresh_call_disconnect_reason-Keeps q info.reason info.message w1) in
    let rc = followed_by r2 (clear_pending_state-Keeps env q w2) in
    let r3 = followed_by rc (set_original_call_type_for_disconnect_state-Keeps q wc) in
    let r4 = followed_by r3 (exit_conference-Keeps q w3) in
    followed_by r4 (update_call_state-Keeps env q TelCallState.disconnected w4)

after_end-Keeps : (env : Env) (x : Ending) (w : World) → Inv w.table → Keeps w (after_end env x w)
unfolding after_end
after_end-Keeps env x w v =
    let w1 = handle_hold_call_or_auto_answer_call env x.at x.size x.previous x.prior w in
    followed_by (handle_hold-Keeps env x.at x.size x.previous x.prior w v)
      (leave_last-Keeps env (call_at x.at w1).slot_id w1)

disconnect_at-Keeps :
    (env : Env) (h : Handler) (info : CallDetailInfo) (p : ℕ) (w : World)
    → HandlerKeeps h
    → Inv w.table
    → p < w.table.next
    → Keeps w (disconnect_at env h info p w)
unfolding disconnect_at
disconnect_at-Keeps env h info p w k v lt =
    let (w1, x) = end_call env info p w in
    let r1 = end_call-Keeps env info p w v lt in
    let r2 = followed_by r1 (dial_if_waiting-Keeps env h x.at w1 k) in
    followed_by r2 (after_end-Keeps env x (dial_if_waiting env h x.at w1))

disconnected_with-Keeps :
    (env : Env) (h : Handler) → HandlerKeeps h → HandlerKeeps (disconnected_with env h)
unfolding disconnected_with
disconnected_with-Keeps env h k info w v =
    let found = find_or_refresh-Keeps env info w v in
    elim (Option-cases (find_or_refresh env info w).1) [
      | inl e ↦ rw (e, disconnected_with) found.0
      | inr (p, e) ↦
          let lt = subst (Holds _) e found.1 in
          rw (e, disconnected_with)
            (followed_by found.0
              (λ i. disconnect_at-Keeps env h info p (find_or_refresh env info w).0 k i lt))
    ]

disconnected_on-Keeps : (env : Env) (fuel : ℕ) → HandlerKeeps (disconnected_on env fuel)
unfolding disconnected_on
disconnected_on-Keeps env zero info w v = start v
disconnected_on-Keeps env (suc fuel) info w v =
    disconnected_with-Keeps env (disconnected_on env fuel) (disconnected_on-Keeps env fuel) info w v

pub disconnected_handle-Keeps : (env : Env) → HandlerKeeps (disconnected_handle env)
unfolding disconnected_handle
disconnected_handle-Keeps env info w v = disconnected_on-Keeps env 2 info w v

pub deal_fail_dial-Keeps :
    (env : Env) (p : ℕ) (w : World) → Inv w.table → Keeps w (deal_fail_dial env p w).0
unfolding deal_fail_dial
deal_fail_dial-Keeps env p w v =
    deal_fail_dial_with-Keeps (disconnected_handle env) p w (disconnected_handle-Keeps env) v
