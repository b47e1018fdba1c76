-- ===== src/Reports/Dialing.antt =====
-- An outgoing call's report: `DialingHandle` and what it calls, and `RefreshDialingStateByOtherState`.
use telephony_call_manager_m.Prelude.{ℕ, Bool, true, false, Option, none, some, if◌then◌else◌}
use telephony_call_manager_m.Prelude.Eq.{◌==◌}
use telephony_call_manager_m.Prelude.Int.{ℤ, pos, int_eq, ltb_ℤ}
use telephony_call_manager_m.Types.{TelCallState, CallDirection, Bytes, Code, is_success}
use telephony_call_manager_m.Call.{Clock, Call, set_tel_call_state}
use telephony_call_manager_m.CallTable.{CallTable, add_one_call_object}
use telephony_call_manager_m.CallTable.Queries.{
  get_one_call_object_by_index, get_one_call_object_by_index_slot_id_and_call_type,
}
use telephony_call_manager_m.Status.{CallDetailInfo, create_new_call}
use telephony_call_manager_m.Service.{World, Env, edit, notify_new_call_created}
use telephony_call_manager_m.Service.Pending.{
  set_pending_mo, restore_dialing_flag, remove_event_handler_task,
}
use telephony_call_manager_m.Carrier.{call_at, carrier_dialing_process}
use telephony_call_manager_m.Reports.Calls.{update_call_state, clear_pending_state, refresh}

abbrev pub init_index : ℤ
init_index = pos 0

-- `GetOneCallObjectByIndexSlotIdAndCallType` of a report.
unfoldable pub find_reported : CallDetailInfo → CallTable → Option ℕ
find_reported info t =
    get_one_call_object_by_index_slot_id_and_call_type info.index info.account_id info.call_type
      info.phone_index t

-- The call is known under its index, or was dialed here and has none yet.
unfoldable pub update_dialing_handle : CallDetailInfo → CallTable → Bool
unfolding find_reported
update_dialing_handle info t = elim (find_reported (record info { index = init_index }) t) [
  | some p ↦ true
  | none ↦ elim (find_reported info t) [ some p ↦ true | none ↦ false ]
]

-- What a dialed call takes from its first report; the number stays.
unfoldable pub take_report : Clock → Bytes → CallDetailInfo → Call → Call
take_report now number info c =
    let set =
      (set_tel_call_state now info.state (record c {
        index = info.index;
        bundle_name = info.bundle_name;
        slot_id = info.account_id;
      })).0 in
    record set {
      video_state = info.call_mode;
      call_type = info.call_type;
      account_number = number;
      ims_domain = info.ims_domain;
    }

-- `WATCH_DIAL` is 1.
unfoldable pub mark_pending_mo : CallDetailInfo → ℕ → World → World
unfolding edit
mark_pending_mo info p w =
    if info.index == init_index
    then edit p (λ c. record c { phone_or_watch = pos 1 })
        (record w { helper = set_pending_mo true (call_at p w).call_id w.helper })
    else w

module _ (env : Env) where
  unfoldable pub update_dialing_call_info : CallDetailInfo → World → World × Code
  unfolding find_reported edit take_report refresh
  update_dialing_call_info info w = elim (find_reported info w.table) [
    | some p ↦ ((refresh env info p w).0, Code.success)
    | none ↦ elim (get_one_call_object_by_index init_index w.table) [
      | none ↦ (w, Code.local_ptr_null)
      | some p ↦
          let number = (call_at p w).account_number in
          let (w1, q) = refresh env info p w in
          (clear_pending_state env q (edit q (take_report env.now number info) w1), Code.success)
    ]
  ]

  -- `RestoreDialingFlag(false)` and `RemoveEventHandlerTask()`.
  unfoldable pub end_dialing : World → World
  end_dialing w =
      let (h, l) =
        remove_event_handler_task env.freq env.tick env.ms_to_ticks
          (restore_dialing_flag false w.helper) w.loop in
      record w { helper = h; loop = l }

  -- A new call that the table has taken.
  unfoldable pub start_dialing : CallDetailInfo → ℕ → World → World × Code
  unfolding mark_pending_mo end_dialing
  start_dialing info p w =
      let (w1, code) = carrier_dialing_process env p (end_dialing (mark_pending_mo info p w)) in
      if is_success code
      then update_call_state env p TelCallState.dialing (notify_new_call_created p w1)
      else (w1, code)

  unfoldable pub add_dialing_call : CallDetailInfo → World → World × Code
  unfolding start_dialing
  add_dialing_call info w =
      let (t, o) = create_new_call env.now w.last_dial info CallDirection.direction_out w.table in
      elim o [
        | none ↦ (record w { table = t }, Code.local_ptr_null)
        | some p ↦
            let (t1, code) = add_one_call_object (some p) t in
            let added = record w { table = t1 } in
            if is_success code then start_dialing info p added else (added, code)
      ]

  unfoldable pub dialing_handle : CallDetailInfo → World → World × Code
  unfolding update_dialing_call_info add_dialing_call update_dialing_handle
  dialing_handle info w =
      if ltb_ℤ (pos 0) info.index
      then if update_dialing_handle info w.table
        then update_dialing_call_info info w
        else add_dialing_call info w
      else add_dialing_call info w

  -- A report of a later state for a call whose dialing was not reported yet.
  unfoldable pub refresh_dialing_state_by_other_state : CallDetailInfo → World → World × Option ℕ
  unfolding dialing_handle find_reported
  refresh_dialing_state_by_other_state info w =
      elim (get_one_call_object_by_index init_index w.table) [
        | none ↦ (w, none)
        | some p ↦
            let w1 = (dialing_handle (record info { state = TelCallState.dialing }) w).0 in
            (w1, find_reported info w1.table)
      ]

  -- The call of a report, with that help.
  unfoldable pub find_or_refresh : CallDetailInfo → World → World × Option ℕ
  unfolding find_reported refresh_dialing_state_by_other_state
  find_or_refresh info w = elim (find_reported info w.table) [
    | some p ↦ (w, some p)
    | none ↦ refresh_dialing_state_by_other_state info w
  ]
