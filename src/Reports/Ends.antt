-- ===== src/Reports/Ends.antt =====
-- The rounds of the handler of a call's end, on the fuel of `disconnected_on`.
use telephony_call_manager_m.Prelude.{
  ℕ, zero, suc, ◌≤◌, ◌≡◌, refl, ap, subst, false, arith, ◌∙◌, sym, inl, inr, Option-cases,
}
use telephony_call_manager_m.Prelude.Eq.{nat_eq}
use telephony_call_manager_m.Prelude.Int.{ℤ, int_eq}
use telephony_call_manager_m.Prelude.Search.{Holds}
use telephony_call_manager_m.Types.{RunningState, Code}
use telephony_call_manager_m.CallTable.Reach.{Step}
use telephony_call_manager_m.CallTable.Reserve.{Inv}
use telephony_call_manager_m.CallTable.Runs.{Reach-waits, start, step}
use telephony_call_manager_m.CallTable.Queries.{get_call_in}
use telephony_call_manager_m.Status.{CallDetailInfo}
use telephony_call_manager_m.Service.{World, Env, Request, send}
use telephony_call_manager_m.Carrier.{call_at}
use telephony_call_manager_m.Reports.Dialing.{find_or_refresh}
use telephony_call_manager_m.Reports.Disconnect.{
  Handler, disconnected_report, deal_fail_dial_with, handle_dial_when_holding, dial_if_waiting,
  end_call, after_end, disconnect_at, disconnected_with, disconnected_on, disconnected_handle,
}
use telephony_call_manager_m.Reports.Keeps.{send-Keeps}
use telephony_call_manager_m.Reports.DialingKeeps.{find_or_refresh-Keeps}
use telephony_call_manager_m.Reports.DisconnectKeeps.{end_call-Keeps}

dial_if_waiting-none :
    (env : Env) (h : Handler) (p : ℕ) (w : World)
    → w.table.need_wait_hold ≡ false
    → dial_if_waiting env h p w ≡ w
unfolding dial_if_waiting
dial_if_waiting-none env h p w e = rw e refl

-- Where nothing waits, the handler does not come round to itself.
disconnected_with_any :
    (env : Env) (h k : Handler) (info : CallDetailInfo) (w : World)
    → Inv w.table
    → w.table.need_wait_hold ≡ false
    → disconnected_with env h info w ≡ disconnected_with env k info w
unfolding disconnected_with disconnect_at
disconnected_with_any env h k info w v e =
    let found = find_or_refresh-Keeps env info w v in
    let w1 = (find_or_refresh env info w).0 in
    elim (Option-cases (find_or_refresh env info w).1) [
      | inl f ↦ rw (f, disconnected_with) refl
      | inr (p, f) ↦
          let r = end_call-Keeps env info p w1 found.0.inv (subst (Holds _) f found.1) in
          let none_waits = Reach-waits r.reach (Reach-waits found.0.reach e) in
          let (w2, x) = end_call env info p w1 in
          rw (f, disconnected_with)
            (ap {B = World × Code} (λ (u : World). (after_end env x u, Code.success))
              (dial_if_waiting-none env h x.at w2 none_waits
                ∙ sym (dial_if_waiting-none env k x.at w2 none_waits)))
    ]

-- Two handlers that give the same where nothing waits.
abbrev Agree : Handler → Handler → Type 0
Agree h k =
    (info : CallDetailInfo) (w : World)
    → Inv w.table
    → w.table.need_wait_hold ≡ false
    → h info w ≡ k info w

deal_fail_dial_with-Agree :
    (h k : Handler) (p : ℕ) (w : World)
    → Agree h k
    → Inv w.table
    → w.table.need_wait_hold ≡ false
    → deal_fail_dial_with h p w ≡ deal_fail_dial_with k p w
unfolding deal_fail_dial_with
deal_fail_dial_with-Agree h k p w a v e = rw (a (disconnected_report (call_at p w)) w v e) refl

handle_dial_when_holding-Agree :
    (env : Env) (h k : Handler) (id : ℤ) (p : ℕ) (w : World)
    → Agree h k
    → Inv w.table
    → w.table.need_wait_hold ≡ false
    → handle_dial_when_holding env h id p w ≡ handle_dial_when_holding env k id p w
unfolding handle_dial_when_holding
handle_dial_when_holding-Agree env h k id p w a v e =
    let w2 = (send env (Request.dial w.dial_call_info) w).0 in
    let r = send-Keeps env (Request.dial w.dial_call_info) w v in
    elim (Option-cases (get_call_in RunningState.dialing w2.table)) [
      | inl f ↦ rw (f, handle_dial_when_holding) refl
      | inr (q, f) ↦
          rw
            (
              f,
              handle_dial_when_holding,
              deal_fail_dial_with-Agree h k p w2 a r.inv (Reach-waits r.reach e),
            )
            refl
    ]

dial_if_waiting-Agree :
    (env : Env) (h k : Handler) (p : ℕ) (w : World)
    → Agree h k
    → Inv w.table
    → dial_if_waiting env h p w ≡ dial_if_waiting env k p w
unfolding dial_if_waiting
dial_if_waiting-Agree env h k p w a v =
    let w1 = record w { table = record (w.table) { need_wait_hold = false } } in
    let v1 : Inv w1.table = (step (start v) Step.waits_no_more).inv in
    rw (handle_dial_when_holding-Agree env h k (call_at p w).call_id p w1 a v1 refl) refl

disconnected_with-Agree :
    (env : Env) (h k : Handler) (info : CallDetailInfo) (w : World)
    → Agree h k
    → Inv w.table
    → disconnected_with env h info w ≡ disconnected_with env k info w
unfolding disconnected_with disconnect_at
disconnected_with-Agree env h k info w a v =
    let found = find_or_refresh-Keeps env info w v in
    let w1 = (find_or_refresh env info w).0 in
    elim (Option-cases (find_or_refresh env info w).1) [
      | inl f ↦ rw (f, disconnected_with) refl
      | inr (p, f) ↦
          let r = end_call-Keeps env info p w1 found.0.inv (subst (Holds _) f found.1) in
          let (w2, x) = end_call env info p w1 in
          rw (f, disconnected_with)
            (ap {B = World × Code} (λ (u : World). (after_end env x u, Code.success))
              (dial_if_waiting-Agree env h k x.at w2 a r.inv))
    ]

-- The handler of a call's end, which can come round to itself through a dial that waited and fails, ends:
-- on a table that satisfies its invariant two rounds are enough, and more give the same.
pub disconnected_on_ends :
    (env : Env) (fuel : ℕ) (info : CallDetailInfo) (w : World)
    → Inv w.table
    → 2 ≤ fuel
    → disconnected_on env fuel info w ≡ disconnected_handle env info w
unfolding disconnected_on disconnected_handle
disconnected_on_ends env zero info w v le = absurd (omega arith)
disconnected_on_ends env (suc zero) info w v le = absurd (omega arith)
disconnected_on_ends env (suc (suc n)) info w v le =
    disconnected_with-Agree env (disconnected_on env (suc n)) (disconnected_on env 1) info w
      (λ i u iv e.
        disconnected_with_any env (disconnected_on env n) (disconnected_on env 0) i u iv e)
      v
