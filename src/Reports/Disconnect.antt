-- ===== src/Reports/Disconnect.antt =====
-- The end of a call: `DisconnectedHandle` and what it calls. It can come round to itself, when a dial that
-- waited for the end fails at once (`HandleDialWhenHolding`, `DealFailDial`): `again` is that call of it. The flag that guards it,
-- `needWaitHold_`, is only ever assigned false in the source, so this is the code as it is written and not a
-- run of the program.
use telephony_call_manager_m.Prelude.{
  ℕ, zero, suc, Bool, false, not, ◌&&◌, [], ◌∷◌, none, some, if◌then◌else◌, leb, length,
}
use telephony_call_manager_m.Prelude.Eq.{◌==◌, nat_eq}
use telephony_call_manager_m.Prelude.Int.{ℤ, pos, int_eq}
use telephony_call_manager_m.Types.{
  TelCallState, RunningState, TelConferenceState, Code, is_success, tel_eq, running_eq,
  tel_conference_eq,
}
use telephony_call_manager_m.Call.{Call}
use telephony_call_manager_m.CallTable.{CallTable, delete_one_call_object}
use telephony_call_manager_m.CallTable.Queries.{get_one_call_object, get_call_in}
use telephony_call_manager_m.CallTable.Scans.{get_call_num}
use telephony_call_manager_m.Status.{CallDetailInfo}
use telephony_call_manager_m.Service.{World, Env, Request, edit, send}
use telephony_call_manager_m.Service.Pending.{is_pending_hangup, get_pending_hangup_call_id}
use telephony_call_manager_m.Carrier.{call_at, carrier_un_hold_call}
use telephony_call_manager_m.Reports.Calls.{
  update_call_state, clear_pending_state, clear_pending_hangup, refresh, exit_conference,
  sub_call_count, set_original_call_type_for_disconnect_state, get_conference_call_list,
  refresh_call_disconnect_reason,
}
use telephony_call_manager_m.Reports.Dialing.{find_or_refresh}

-- The report that `ReportCallDisconnected` makes up; `FAILED_UNKNOWN` is 1279.
unfoldable pub disconnected_report : Call → CallDetailInfo
disconnected_report c = record {
  index = c.index;
  account_id = c.slot_id;
  phone_num = c.account_number;
  call_mode = c.video_state;
  call_type = c.call_type;
  state = TelCallState.disconnected;
  bundle_name = [];
  crs_type = pos 0;
  original_call_type = 0;
  phone_or_watch = pos 0;
  new_call_use_box = pos 0;
  ims_domain = pos 0;
  mpty = pos 0;
  phone_index = pos 0;
  reason = pos 1279;
  message = [];
}

-- What `DisconnectedHandle` remembers of the call before it ends: its address, the size of its conference
-- and its states.
pub record Ending : Type 0 where
  pub at : ℕ
  pub size : ℕ
  pub previous : RunningState
  pub prior : TelCallState

abbrev pub Handler : Type 0
Handler = CallDetailInfo → World → World × Code

-- `DealFailDial`, with the handler that the report reaches.
unfoldable pub deal_fail_dial_with : Handler → ℕ → World → World × Code
unfolding disconnected_report
deal_fail_dial_with handle p w =
    if leb (length (call_at p w).account_number) 255
    then handle (disconnected_report (call_at p w)) w
    else (w, Code.number_out_of_range)

unfoldable pub is_can_un_hold : ℕ → CallTable → Bool
is_can_un_hold size t =
    get_call_num TelCallState.answered t == 0
    && (get_call_num TelCallState.incoming t == 0
        && (leb size 1
            && (get_call_num TelCallState.active t == 0
                && (get_call_num TelCallState.waiting t == 0
                    && get_call_num TelCallState.alerting t == 0))))

unfoldable pub delete_call : ℤ → World → World
delete_call id w = record w { table = (delete_one_call_object id w.table).0 }

-- A held call on the slot of an outgoing or ringing call that was hung up here is resumed.
unfoldable pub resumes : ℕ → ℕ → RunningState → TelCallState → ℕ → World → Bool
unfolding is_can_un_hold
resumes p size previous prior q w =
    (not (previous == RunningState.hold)
      && (not (previous == RunningState.active) && prior == TelCallState.disconnecting))
    && (is_can_un_hold size w.table
        && ((call_at q w).can_un_hold_state && (call_at q w).slot_id == (call_at p w).slot_id))

module _ (env : Env) where
  unfoldable pub handle_hold_call_or_auto_answer_call :
      ℕ → ℕ → RunningState → TelCallState → World → World
  unfolding resumes delete_call
  handle_hold_call_or_auto_answer_call p size previous prior w =
      let w1 : World = elim (get_call_in RunningState.hold w.table) [
        | none ↦ w
        | some q ↦ if resumes p size previous prior q w then (carrier_un_hold_call env q w).0 else w
      ] in
      delete_call (call_at p w1).call_id w1

  unfoldable pub drop_pending_call : ℤ → World → World
  unfolding delete_call
  drop_pending_call id w = elim (get_one_call_object id w.table) [
    | none ↦ w
    | some q ↦ delete_call id (update_call_state env q TelCallState.disconnected w).0
  ]

  unfoldable pub handle_dial_when_holding : Handler → ℤ → ℕ → World → World
  unfolding deal_fail_dial_with drop_pending_call send
  handle_dial_when_holding again id p w =
      let w1 : World = elim (get_one_call_object id w.table) [
        | none ↦ w
        | some q ↦ (carrier_un_hold_call env q w).0
      ] in
      let cleared =
        clear_pending_hangup env (drop_pending_call (get_pending_hangup_call_id w.helper) w1) in
      let (w2, code) = send env (Request.dial w.dial_call_info) w in
      let failed : World = elim (get_call_in RunningState.dialing w2.table) [
        | none ↦ w2
        | some q ↦ if is_success code then w2 else (deal_fail_dial_with again p w2).0
      ] in
      if is_pending_hangup w.helper then cleared else failed

  unfoldable pub dial_if_waiting : Handler → ℕ → World → World
  unfolding handle_dial_when_holding
  dial_if_waiting again p w =
      if w.table.need_wait_hold && get_call_num TelCallState.active w.table == 0
      then handle_dial_when_holding again (call_at p w).call_id p
          (record w { table = record (w.table) { need_wait_hold = false } })
      else w

  -- The last member of a conference leaves it too.
  unfoldable pub leave_last : ℤ → World → World
  unfolding edit
  leave_last slot_id w = elim (get_conference_call_list slot_id w) [
    | q ∷ [] ↦
        if (call_at q w).conference_state == TelConferenceState.idle
        then w
        else let w1 = edit q (λ c. record c { conference_state = TelConferenceState.idle }) w in
          (update_call_state env q (call_at q w1).call_state w1).0
    | _ ↦ w
  ]

  -- `DisconnectedHandle` up to the notice of the end.
  unfoldable pub end_call : CallDetailInfo → ℕ → World → World × Ending
  end_call info p w =
      let (w1, q) = refresh env info p w in
      let w2 = refresh_call_disconnect_reason q info.reason info.message w1 in
      let w3 = set_original_call_type_for_disconnect_state q (clear_pending_state env q w2) in
      let w4 = exit_conference q w3 in
      (
        (update_call_state env q TelCallState.disconnected w4).0,
        record {
          at = q;
          size = sub_call_count q w3;
          previous = (call_at q w3).running_state;
          prior = (call_at q w4).call_state;
        },
      )

  -- And after it.
  unfoldable pub after_end : Ending → World → World
  unfolding handle_hold_call_or_auto_answer_call leave_last
  after_end x w =
      let w1 = handle_hold_call_or_auto_answer_call x.at x.size x.previous x.prior w in
      leave_last (call_at x.at w1).slot_id w1

  unfoldable pub disconnect_at : Handler → CallDetailInfo → ℕ → World → World
  unfolding end_call dial_if_waiting after_end
  disconnect_at again info p w =
      let (w1, x) = end_call info p w in after_end x (dial_if_waiting again x.at w1)

  unfoldable pub disconnected_with : Handler → Handler
  unfolding disconnect_at
  disconnected_with again info w =
      let (w1, o) = find_or_refresh env info w in
      elim o [
        | none ↦ (w1, Code.local_ptr_null)
        | some p ↦ (disconnect_at again info p w1, Code.success)
      ]

  -- On fuel, for the call of itself.
  unfoldable pub disconnected_on : ℕ → Handler
  unfolding disconnected_with
  disconnected_on zero info w = (w, Code.uninit)
  disconnected_on (suc fuel) info w = disconnected_with (disconnected_on fuel) info w

  -- The call of itself clears the flag that leads to it, so two rounds are enough.
  unfoldable pub disconnected_handle : Handler
  unfolding disconnected_on
  disconnected_handle info w = disconnected_on 2 info w

  unfoldable pub deal_fail_dial : ℕ → World → World × Code
  unfolding deal_fail_dial_with disconnected_handle
  deal_fail_dial p w = deal_fail_dial_with disconnected_handle p w
