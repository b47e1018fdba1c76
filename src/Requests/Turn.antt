-- ===== src/Requests/Turn.antt =====
-- utils/mini/src/los_event_handler.cpp on the service's tasks: one turn of `RunLoop`, which pops a message
-- and dispatches it.
use telephony_call_manager_m.Prelude.{List, [], ◌∷◌, none, some, if◌then◌else◌}
use telephony_call_manager_m.EventLoop.{DelayedTask, dispatch_timer}
use telephony_call_manager_m.EventLoop.Queue.{Message, pop}
use telephony_call_manager_m.Service.{World, Env}
use telephony_call_manager_m.Service.Pending.{Task}
use telephony_call_manager_m.Requests.{run_task}

module _ (env : Env) where
  -- The tasks that are due, in order.
  unfoldable pub run_all : List (DelayedTask Task) → World → World
  run_all [] w = w
  run_all (e ∷ es) w = run_all es (run_task env e.task w)

  -- `Dispatch`. A task that comes up while the loop stops is dropped.
  unfoldable pub dispatch : Message Task → World → World
  unfolding run_all dispatch_timer
  dispatch (Message.async_task k) w = if w.loop.running then run_task env k w else w
  dispatch (Message.sync_call slot k) w = if w.loop.running then run_task env k w else w
  dispatch Message.timer_fire w =
      let (due, l) = dispatch_timer env.freq env.tick w.loop in run_all due (record w { loop = l })

  unfoldable pub turn : World → World
  unfolding pop dispatch
  turn w =
      let (r, o) = pop w.loop.ring in
      let w1 = record w { loop = record (w.loop) { ring = r } } in
      elim o [ none ↦ w | some m ↦ dispatch m w1 ]
