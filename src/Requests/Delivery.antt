-- ===== src/Requests/Delivery.antt =====
-- A report of the cellular stack on its way through the guard and the main loop.
use telephony_call_manager_m.Prelude.{
  ◌≡◌, ◌⊎◌, refl, inl, inr, Bool, true, false, List, [], ◌∷◌, ◌++◌, Option, none, some,
  if◌then◌else◌, length, ◌≤◌,
}
use telephony_call_manager_m.Prelude.Eq.{◌==◌}
use telephony_call_manager_m.Prelude.Int.{int_eq}
use telephony_call_manager_m.Types.{Code, is_success}
use telephony_call_manager_m.EventLoop.{post_async_task}
use telephony_call_manager_m.EventLoop.Queue.{Ring, Message, enqueue, pop}
use telephony_call_manager_m.EventLoop.Fifo.{IsQueue, enqueue-IsQueue, pop-IsQueue}
use telephony_call_manager_m.Status.Reported.{is_valid_report}
use telephony_call_manager_m.Service.{World, Env}
use telephony_call_manager_m.Service.Pending.{Task}
use telephony_call_manager_m.Callback.{request_result_type}
use telephony_call_manager_m.Callback.Guard.{
  Signal, update_call_report, update_calls_report, update_disconnected_cause, update_event_result,
  update_rbt_play, is_not_handled, RbtPlay, is_valid_batch, post_to_loop, post_if_valid, guard,
}
use telephony_call_manager_m.Requests.{run_task}
use telephony_call_manager_m.Requests.Turn.{turn, dispatch}

-- What a signal asks the main loop for, if it is valid.
abbrev pub asked : Signal → Option Task
asked (update_call_report r) = if is_valid_report r then some (Task.call_report r) else none
asked (update_calls_report slot rs) =
    if is_valid_batch slot rs then some (Task.calls_report slot rs) else none
asked (update_disconnected_cause reason) = some (Task.disconnected_cause reason)
asked (update_event_result kind id) =
    if kind == request_result_type then some (Task.event_result kind id) else none
asked (update_rbt_play RbtPlay.network) = some Task.network_alerting
asked (update_rbt_play RbtPlay.local) = some Task.local_alerting
asked (update_rbt_play (RbtPlay.unknown n)) = none
asked is_not_handled = none

-- The service after a task was posted on the queue, or refused for want of a place.
abbrev pub IsPosted : Task → List (Message Task) → World → World × Code → Type 0
IsPosted k q w (u, code) =
    ((code ≡ Code.ipc_connect_stub_fail) × ((w.loop.ring.queue_size ≤ length q) × (u ≡ w)))
    ⊎ ((code ≡ Code.success)
        × ((r : Ring (Message Task)) × (IsQueue r (q ++ (Message.async_task k ∷ []))
              × (u ≡ record w { loop = record (w.loop) { ring = r } }))))

abbrev pub IsDelivered : Option Task → List (Message Task) → World → World × Code → Type 0
IsDelivered none q w (u, code) = (is_success code ≡ false) × (u ≡ w)
IsDelivered (some k) q w r = IsPosted k q w r

post_to_loop-IsPosted :
    (env : Env) (k : Task) (q : List (Message Task)) (w : World)
    → w.loop.running ≡ true
    → IsQueue w.loop.ring q
    → IsPosted k q w (post_to_loop env k w)
unfolding post_to_loop post_async_task
post_to_loop-IsPosted env k q w on v =
    elim (enqueue-IsQueue (Message.async_task k) w.loop.ring q v) [
      | inl (full, e) ↦ rw (on, e) (inl (refl, (full, refl)))
      | inr (room, e, queue) ↦
          rw on (inr (e, ((enqueue true (Message.async_task k) w.loop.ring).0, (queue, refl))))
    ]

post_if_valid-IsDelivered :
    (env : Env) (b : Bool) (k : Task) (q : List (Message Task)) (w : World)
    → w.loop.running ≡ true
    → IsQueue w.loop.ring q
    → IsDelivered (if b then some k else none) q w (post_if_valid env b k w)
unfolding post_if_valid
post_if_valid-IsDelivered env true k q w on v = post_to_loop-IsPosted env k q w on v
post_if_valid-IsDelivered env false k q w on v = (refl, refl)

-- While the main loop runs: a signal of the cellular stack that is not valid, or that the guard does not
-- handle, is refused with an error and changes nothing. A valid one, when the queue of the loop has a
-- place, goes to the end of the queue as its task and nothing else changes; without a place it is refused
-- and changes nothing.
pub guard-IsDelivered :
    (env : Env) (sig : Signal) (q : List (Message Task)) (w : World)
    → w.loop.running ≡ true
    → IsQueue w.loop.ring q
    → IsDelivered (asked sig) q w (guard env sig w)
unfolding guard
guard-IsDelivered env (update_call_report r) q w on v = post_if_valid-IsDelivered env _ _ q w on v
guard-IsDelivered env (update_calls_report slot rs) q w on v =
    post_if_valid-IsDelivered env (is_valid_batch slot rs) _ q w on v
guard-IsDelivered env (update_disconnected_cause reason) q w on v =
    post_to_loop-IsPosted env _ q w on v
guard-IsDelivered env (update_event_result kind id) q w on v =
    post_if_valid-IsDelivered env (kind == request_result_type) _ q w on v
guard-IsDelivered env (update_rbt_play RbtPlay.network) q w on v =
    post_to_loop-IsPosted env _ q w on v
guard-IsDelivered env (update_rbt_play RbtPlay.local) q w on v =
    post_to_loop-IsPosted env _ q w on v
guard-IsDelivered env (update_rbt_play (RbtPlay.unknown n)) q w on v = (refl, refl)
guard-IsDelivered env is_not_handled q w on v = (refl, refl)

-- While the main loop runs, a turn of it takes the first task of its queue and runs it: the service is
-- then as that task leaves it, started on a queue of the others.
pub turn_lem :
    (env : Env) (k : Task) (q : List (Message Task)) (w : World)
    → w.loop.running ≡ true
    → IsQueue w.loop.ring (Message.async_task k ∷ q)
    → (r : Ring (Message Task)) × (IsQueue r q
        × (turn env w ≡ run_task env k (record w { loop = record (w.loop) { ring = r } })))
unfolding turn dispatch
turn_lem env k q w on v =
    let p = pop-IsQueue w.loop.ring (Message.async_task k ∷ q) v in
    ((pop w.loop.ring).0, (p.1, rw (p.0, turn, on) refl))
