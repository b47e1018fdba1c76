-- ===== src/Requests/Whole.antt =====
-- The service as a whole: reports, requests and tasks in any order.
use telephony_call_manager_m.Prelude.{ℕ, Bool, List, [], ◌∷◌}
use telephony_call_manager_m.Prelude.Int.{ℤ, int_eq}
use telephony_call_manager_m.CallTable.Reserve.{Inv}
use telephony_call_manager_m.Status.{CallDetailInfo}
use telephony_call_manager_m.Service.{World, Env}
use telephony_call_manager_m.Service.Pending.{Task}
use telephony_call_manager_m.Reports.Diff.{handle_calls_report_info}
use telephony_call_manager_m.Reports.Keeps.{Keeps}
use telephony_call_manager_m.Reports.HandleKeeps.{handle_calls_report_info-Keeps}
use telephony_call_manager_m.Callback.Guard.{Signal, guard}
use telephony_call_manager_m.Requests.Turn.{turn}
use telephony_call_manager_m.Requests.TurnKeeps.{guard-Keeps, turn-Keeps}
use telephony_call_manager_m.Requests.{run_task}
use telephony_call_manager_m.Requests.Keeps.{run_task-Keeps}
use telephony_call_manager_m.Requests.Control.{
  answer_call, reject_call, hang_up_call, hold_call, un_hold_call, switch_call, end_call,
  end_call_order,
}
use telephony_call_manager_m.Requests.Entries.{
  post_if-Keeps, answer_call-Keeps, reject_call-Keeps, hang_up_call-Keeps, end_first_in-Keeps,
}
use telephony_call_manager_m.Policy.{Services}
use telephony_call_manager_m.Requests.Entry.{DialAsked, dial_call}
use telephony_call_manager_m.Requests.Entries.{dial_call-Keeps}

-- What happens to the service: a report of the calls of a slot, a dial, a request of an application on a
-- call, a signal of the cellular stack, a turn of the main loop, a task.
pub data Act : Type 0 where
  reports : ℤ → List CallDetailInfo → Act
  dials : Services → DialAsked → Act
  answers : ℤ → ℤ → Bool → Act
  refuses : ℤ → Bool → List ℕ → Act
  hangs_up holds un_holds switches : ℤ → Act
  ends : Act
  signals : Signal → Act
  turns : Act
  runs : Task → Act

unfoldable pub act : Env → Act → World → World
unfolding end_call
act env (reports slot report) w = (handle_calls_report_info env slot report w).0
act env (dials sv a) w = (dial_call env sv a w).0
act env (answers id video_state is_rtt) w = (answer_call env id video_state is_rtt w).0
act env (refuses id with_message text) w = (reject_call env id with_message text w).0
act env (hangs_up id) w = (hang_up_call env id w).0
act env (holds id) w = (hold_call env id w).0
act env (un_holds id) w = (un_hold_call env id w).0
act env (switches id) w = (switch_call env id w).0
act env ends w = (end_call env w).0
act env (signals sig) w = (guard env sig w).0
act env turns w = turn env w
act env (runs k) w = run_task env k w

-- Each act at its own time, with its own answers of the cellular stack.
unfoldable pub act_all : List (Env × Act) → World → World
unfolding act
act_all [] w = w
act_all ((env, a) ∷ acts) w = act_all acts (act env a w)

act-Keeps : (env : Env) (a : Act) (w : World) → Inv w.table → Keeps w (act env a w)
unfolding act end_call
act-Keeps env (reports slot report) w v = handle_calls_report_info-Keeps env slot report w v
act-Keeps env (dials sv a) w v = dial_call-Keeps env sv a w v
act-Keeps env (answers id s b) w v = answer_call-Keeps env id s b w v
act-Keeps env (refuses id b text) w v = reject_call-Keeps env id b text w v
act-Keeps env (hangs_up id) w v = hang_up_call-Keeps env id w v
act-Keeps env (holds id) w v = unfold hold_call in post_if-Keeps env _ _ w v
act-Keeps env (un_holds id) w v = unfold un_hold_call in post_if-Keeps env _ _ w v
act-Keeps env (switches id) w v = unfold switch_call in post_if-Keeps env _ _ w v
act-Keeps env ends w v = end_first_in-Keeps env end_call_order w v
act-Keeps env (signals sig) w v = guard-Keeps env sig w v
act-Keeps env turns w v = turn-Keeps env w v
act-Keeps env (runs k) w v = run_task-Keeps env k w v

-- Whatever is reported, signalled, dialed, asked for and run, in any order, at any times and with any
-- answers of the cellular stack: a table that satisfied its invariant still does. The calls in it have
-- different ids and are at most five, at most four of them not emergency calls, and all of them allocated.
pub act_all-Inv : (acts : List (Env × Act)) (w : World) → Inv w.table → Inv (act_all acts w).table
unfolding act_all
act_all-Inv [] w v = v
act_all-Inv ((env, a) ∷ acts) w v = act_all-Inv acts (act env a w) (act-Keeps env a w v).inv
