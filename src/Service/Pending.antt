-- ===== src/Service/Pending.antt =====
-- services/call/src/mini/call_request_event_handler_helper.cpp: the flags of the call that is being
-- dialed and of the hang-up that waits for it, and the task that takes the dialing flag back.
use telephony_call_manager_m.Prelude.{ℕ, List, Bool, false, not, ◌&&◌, none, some, if◌then◌else◌}
use telephony_call_manager_m.Prelude.Eq.{◌==◌, nat_eq}
use telephony_call_manager_m.Prelude.Int.{ℤ, negsuc, int_eq}
use telephony_call_manager_m.Types.{Bytes, Code, is_success}
use telephony_call_manager_m.Status.Reported.{CallReportInfo}
use telephony_call_manager_m.EventLoop.{Loop, post_async_task, remove_async_task}

-- The tasks that the call code and the guard of the network's callbacks post to the main loop. An event
-- has a type and an id, a cause its reason.
pub data Task : Type 0 where
  restore_dialing : Task
  pending_hangup_timeout : ℤ → Task
  answer_request : ℤ → ℤ → Bool → Task
  reject_request : ℤ → Bool → Bytes → Task
  hang_up_request : ℤ → Task
  hold_request : ℤ → Task
  un_hold_request : ℤ → Task
  switch_request : ℤ → Task
  call_report : CallReportInfo → Task
  calls_report : ℤ → List CallReportInfo → Task
  disconnected_cause : ℤ → Task
  event_result : ℤ → ℤ → Task
  local_alerting network_alerting : Task

-- The members of `CallRequestEventHandlerHelper`, and `pendingHangupTaskId_` of the control manager.
pub record Helper : Type 0 where
  pub is_dialing : Bool  -- isDialingCallProcessing_
  pub restore_task_id : ℕ
  pub pending_mo : Bool
  pub pending_mo_call_id : ℤ
  pub pending_hangup : Bool
  pub pending_hangup_call_id : ℤ
  pub pending_hangup_task_id : ℕ

abbrev pub no_call : ℤ
no_call = negsuc 0

unfoldable pub set_pending_mo : Bool → ℤ → Helper → Helper
set_pending_mo b id h = record h { pending_mo = b; pending_mo_call_id = id }

unfoldable pub has_pending_mo : ℤ → Helper → Bool
has_pending_mo id h = h.pending_mo && h.pending_mo_call_id == id

unfoldable pub set_pending_hangup : Bool → ℤ → Helper → Helper
set_pending_hangup b id h = record h { pending_hangup = b; pending_hangup_call_id = id }

unfoldable pub has_pending_hangup : ℤ → Helper → Bool
has_pending_hangup id h = h.pending_hangup && h.pending_hangup_call_id == id

unfoldable pub is_pending_hangup : Helper → Bool
is_pending_hangup h = if not (h.pending_hangup_call_id == no_call) then h.pending_hangup else false

unfoldable pub get_pending_hangup_call_id : Helper → ℤ
get_pending_hangup_call_id h = if h.pending_hangup then h.pending_hangup_call_id else no_call

unfoldable pub restore_dialing_flag : Bool → Helper → Helper
restore_dialing_flag b h = record h { is_dialing = b }

-- `DELAY_TIME_MS` and `PENDINGHANGUP_DELAY_TIME_MS`.
abbrev pub restore_delay_ms : ℕ
restore_delay_ms = 3000

abbrev pub pending_hangup_delay_ms : ℕ
pending_hangup_delay_ms = 30000

-- The clock is an argument, as in the main loop; an id that is written is never 0.
module _ (freq tick : ℕ) (ms_to_ticks : ℕ → ℕ) where
  unfoldable pub remove_event_handler_task : Helper → Loop Task → Helper × Loop Task
  remove_event_handler_task h l =
      if h.restore_task_id == 0
      then (h, l)
      else (record h { restore_task_id = 0 }, (remove_async_task freq tick h.restore_task_id l).0)

  unfoldable pub set_dialing_call_processing : Helper → Loop Task → Helper × Loop Task × Code
  unfolding remove_event_handler_task
  set_dialing_call_processing h l =
      let (h1, l1) = remove_event_handler_task h l in
      let (l2, id, r) =
        post_async_task freq tick restore_delay_ms (ms_to_ticks restore_delay_ms)
          Task.restore_dialing l1 in
      if not h.is_dialing then (h, l, Code.telephony_error) else (
        record h1 { restore_task_id = elim id [ none ↦ h1.restore_task_id | some i ↦ i ] },
        l2,
        if is_success r then Code.success else Code.telephony_error,
      )

  -- `CallControlManager::PostPendingHangupProtectTask`.
  unfoldable pub post_pending_hangup_protect_task : ℤ → Helper → Loop Task → Helper × Loop Task
  post_pending_hangup_protect_task call_id h l =
      let (l1, id, r) =
        post_async_task freq tick pending_hangup_delay_ms (ms_to_ticks pending_hangup_delay_ms)
          (Task.pending_hangup_timeout call_id) l in
      if h.pending_hangup_task_id == 0
      then (
        record h {
          pending_hangup_task_id = elim id [ none ↦ h.pending_hangup_task_id | some i ↦ i ];
        },
        l1,
      )
      else (h, l)

  -- `CallControlManager::RemovePendingHangupProtectTask`.
  unfoldable pub remove_pending_hangup_protect_task : Helper → Loop Task → Helper × Loop Task
  remove_pending_hangup_protect_task h l = if h.pending_hangup_task_id == 0 then (h, l) else (
    record h { pending_hangup_task_id = 0 },
    (remove_async_task freq tick h.pending_hangup_task_id l).0,
  )
