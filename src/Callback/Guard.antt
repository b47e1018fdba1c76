-- ===== src/Callback/Guard.antt =====
-- `CallStatusCallbackGuard`: what the cellular stack may report.
use telephony_call_manager_m.Prelude.{
  ℕ, Bool, true, ◌&&◌, List, [], ◌∷◌, if◌then◌else◌, leb, length,
}
use telephony_call_manager_m.Prelude.Eq.{◌==◌}
use telephony_call_manager_m.Prelude.Int.{ℤ, int_eq}
use telephony_call_manager_m.Types.{Code}
use telephony_call_manager_m.Number.{is_valid_slot_id}
use telephony_call_manager_m.EventLoop.{post_async_task}
use telephony_call_manager_m.Status.Reported.{CallReportInfo, is_valid_report}
use telephony_call_manager_m.Service.{World, Env}
use telephony_call_manager_m.Service.Pending.{Task}
use telephony_call_manager_m.Callback.{request_result_type}

-- `MINI_MAX_REPORTED_CALLS`.
abbrev pub max_reported_calls : ℕ
max_reported_calls = 5

-- `RBTPlayInfo`: 0 and 1.
pub data RbtPlay : Type 0 where
  network local : RbtPlay
  unknown : ℕ → RbtPlay

-- The calls of the cellular stack. The other methods of the interface are refused.
pub data Signal : Type 0 where
  update_call_report : CallReportInfo → Signal
  update_calls_report : ℤ → List CallReportInfo → Signal
  update_disconnected_cause : ℤ → Signal
  update_event_result : ℤ → ℤ → Signal
  update_rbt_play : RbtPlay → Signal
  is_not_handled : Signal

unfoldable pub all_of_slot : ℤ → List CallReportInfo → Bool
all_of_slot slot [] = true
all_of_slot slot (r ∷ rs) =
    let rest = all_of_slot slot rs in is_valid_report r && (r.account_id == slot && rest)

unfoldable pub is_valid_batch : ℤ → List CallReportInfo → Bool
unfolding all_of_slot
is_valid_batch slot rs =
    leb (length rs) max_reported_calls && (is_valid_slot_id slot && all_of_slot slot rs)

module _ (env : Env) where
  -- `PostToLoop`.
  unfoldable pub post_to_loop : Task → World → World × Code
  post_to_loop k w =
      let (l, id, code) = post_async_task env.freq env.tick 0 (env.ms_to_ticks 0) k w.loop in
      (record w { loop = l }, code)

  unfoldable pub post_if_valid : Bool → Task → World → World × Code
  unfolding post_to_loop
  post_if_valid valid k w = if valid then post_to_loop k w else (w, Code.argument_invalid)

  unfoldable pub guard : Signal → World → World × Code
  unfolding post_if_valid is_valid_batch
  guard (update_call_report r) w = post_if_valid (is_valid_report r) (Task.call_report r) w
  guard (update_calls_report slot rs) w =
      post_if_valid (is_valid_batch slot rs) (Task.calls_report slot rs) w
  guard (update_disconnected_cause reason) w = post_to_loop (Task.disconnected_cause reason) w
  guard (update_event_result kind id) w =
      post_if_valid (kind == request_result_type) (Task.event_result kind id) w
  guard (update_rbt_play RbtPlay.network) w = post_to_loop Task.network_alerting w
  guard (update_rbt_play RbtPlay.local) w = post_to_loop Task.local_alerting w
  guard (update_rbt_play (RbtPlay.unknown n)) w = (w, Code.argument_invalid)
  guard is_not_handled w = (w, Code.function_not_supported)
