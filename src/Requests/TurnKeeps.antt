-- ===== src/Requests/TurnKeeps.antt =====
-- Signals and turns of the main loop as runs of the table's steps.
use telephony_call_manager_m.Prelude.{Bool, List, [], ◌∷◌, inl, inr, Option-cases}
use telephony_call_manager_m.Prelude.Eq.{◌==◌}
use telephony_call_manager_m.Prelude.Int.{int_eq}
use telephony_call_manager_m.Types.{Code}
use telephony_call_manager_m.CallTable.Reserve.{Inv}
use telephony_call_manager_m.CallTable.Runs.{start, followed_by, if_both}
use telephony_call_manager_m.EventLoop.{DelayedTask, dispatch_timer}
use telephony_call_manager_m.EventLoop.Queue.{Message, pop}
use telephony_call_manager_m.Status.Reported.{is_valid_report}
use telephony_call_manager_m.Service.{World, Env}
use telephony_call_manager_m.Service.Pending.{Task}
use telephony_call_manager_m.Reports.Keeps.{Keeps}
use telephony_call_manager_m.Callback.{request_result_type}
use telephony_call_manager_m.Callback.Guard.{
  Signal, update_call_report, update_calls_report, update_disconnected_cause, update_event_result,
  update_rbt_play, is_not_handled, RbtPlay, is_valid_batch, post_to_loop, post_if_valid, guard,
}
use telephony_call_manager_m.Requests.{run_task}
use telephony_call_manager_m.Requests.Keeps.{run_task-Keeps}
use telephony_call_manager_m.Requests.Turn.{run_all, dispatch, turn}

post_if_valid-Keeps :
    (env : Env) (b : Bool) (k : Task) (w : World)
    → Inv w.table
    → Keeps w (post_if_valid env b k w).0
unfolding post_if_valid post_to_loop
post_if_valid-Keeps env b k w v =
    if_both (λ (x : World × Code). Keeps w x.0) b _ (w, Code.argument_invalid) (start v) (start v)

pub guard-Keeps : (env : Env) (sig : Signal) (w : World) → Inv w.table → Keeps w (guard env sig w).0
unfolding guard post_to_loop
guard-Keeps env (update_call_report r) w v = post_if_valid-Keeps env (is_valid_report r) _ w v
guard-Keeps env (update_calls_report slot rs) w v =
    post_if_valid-Keeps env (is_valid_batch slot rs) _ w v
guard-Keeps env (update_disconnected_cause reason) w v = start v
guard-Keeps env (update_event_result kind id) w v =
    post_if_valid-Keeps env (kind == request_result_type) _ w v
guard-Keeps env (update_rbt_play RbtPlay.network) w v = start v
guard-Keeps env (update_rbt_play RbtPlay.local) w v = start v
guard-Keeps env (update_rbt_play (RbtPlay.unknown n)) w v = start v
guard-Keeps env is_not_handled w v = start v

run_all-Keeps :
    (env : Env) (es : List (DelayedTask Task)) (w : World)
    → Inv w.table
    → Keeps w (run_all env es w)
unfolding run_all
run_all-Keeps env [] w v = start v
run_all-Keeps env (e ∷ es) w v =
    followed_by (run_task-Keeps env e.task w v) (run_all-Keeps env es (run_task env e.task w))

dispatch-Keeps :
    (env : Env) (m : Message Task) (w : World) → Inv w.table → Keeps w (dispatch env m w)
unfolding dispatch
dispatch-Keeps env (Message.async_task k) w v =
    if_both (Keeps w) w.loop.running (run_task env k w) w (run_task-Keeps env k w v) (start v)
dispatch-Keeps env (Message.sync_call slot k) w v =
    if_both (Keeps w) w.loop.running (run_task env k w) w (run_task-Keeps env k w v) (start v)
dispatch-Keeps env Message.timer_fire w v =
    let (due, l) = dispatch_timer env.freq env.tick w.loop in
    run_all-Keeps env due (record w { loop = l }) v

pub turn-Keeps : (env : Env) (w : World) → Inv w.table → Keeps w (turn env w)
unfolding turn
turn-Keeps env w v =
    let w1 = record w { loop = record (w.loop) { ring = (pop w.loop.ring).0 } } in
    elim (Option-cases (pop w.loop.ring).1) [
      | inl e ↦ rw (e, turn) (start v)
      | inr (m, e) ↦ rw (e, turn) (dispatch-Keeps env m w1 v)
    ]
