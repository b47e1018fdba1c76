-- ===== src/Requests/Dial.antt =====
-- The dial: `DialRequest` and what it calls, up to the request to the cellular stack.
use telephony_call_manager_m.Prelude.{
  ℕ, Bool, true, false, not, ◌||◌, List, [], ◌∷◌, Option, none, some, if◌then◌else◌, leb, length,
}
use telephony_call_manager_m.Prelude.Eq.{◌==◌}
use telephony_call_manager_m.Prelude.Int.{ℤ, pos, int_eq}
use telephony_call_manager_m.Types.{
  TelCallState, RunningState, CallType, Bytes, Code, is_success, running_eq, call_type_eq,
  video_code,
}
use telephony_call_manager_m.Number.{remove_separators_phone_number}
use telephony_call_manager_m.Call.{Call, DialParaInfo}
use telephony_call_manager_m.CallTable.{CallTable}
use telephony_call_manager_m.CallTable.Queries.{get_one_call_object, get_one_carrier_call_object}
use telephony_call_manager_m.CallTable.Scans.{get_carrier_call_list, is_new_call_allowed_create}
use telephony_call_manager_m.Policy.{dial_carrier_type, dial_voice_mail_type}
use telephony_call_manager_m.Status.{CallDetailInfo}
use telephony_call_manager_m.Service.{World, Env, Request, CellularCallInfo, send}
use telephony_call_manager_m.Service.Pending.{restore_dialing_flag, set_dialing_call_processing}
use telephony_call_manager_m.Carrier.{carrier_hang_up_call, carrier_reject_call}
use telephony_call_manager_m.Reports.Dialing.{end_dialing}
use telephony_call_manager_m.Reports.Disconnect.{deal_fail_dial}
use telephony_call_manager_m.Reports.Handle.{handle_call_report_info}

-- What an emergency dial does with a call that is there: `refuses` where an emergency call is being set
-- up already.
pub data Fate : Type 0 where
  hangs_up rejects stays refuses : Fate

abbrev pub is_setting_up : RunningState → Bool
is_setting_up s =
    s == RunningState.create || (s == RunningState.connecting || s == RunningState.dialing)

unfoldable pub fate_of : Call → Fate
fate_of c =
    if c.call_type == CallType.satellite
    then Fate.hangs_up
    else if is_setting_up c.running_state
    then if c.is_ecc then Fate.refuses else Fate.hangs_up
    else if c.running_state == RunningState.ringing
    then Fate.rejects
    else if c.running_state == RunningState.active || c.running_state == RunningState.hold
    then Fate.hangs_up
    else Fate.stays

-- The two lists of `EccDialPolicy`, and none where it is refused.
unfoldable pub ecc_lists : CallTable → List ℤ → Option (List ℕ × List ℕ)
unfolding fate_of
ecc_lists t [] = some ([], [])
ecc_lists t (id ∷ ids) =
    let rest = ecc_lists t ids in
    elim (get_one_call_object id t) [
      | none ↦ rest
      | some p ↦ elim (fate_of (t.heap p)) [
        | Fate.refuses ↦ none
        | Fate.stays ↦ rest
        | Fate.hangs_up ↦ elim rest [ none ↦ none | some (hs, rs) ↦ some (p ∷ hs, rs) ]
        | Fate.rejects ↦ elim rest [ none ↦ none | some (hs, rs) ↦ some (hs, p ∷ rs) ]
      ]
    ]

-- The report that `UpdateCallReportInfo` makes of a dial; `FAILED_UNKNOWN` is 1279.
unfoldable pub dialing_report : DialParaInfo → Bytes → CallDetailInfo
dialing_report info number = record {
  index = info.index;
  account_id = info.account_id;
  phone_num = number;
  call_mode = info.video_state;
  call_type = info.call_type;
  state = TelCallState.dialing;
  bundle_name = [];
  crs_type = pos 0;
  original_call_type = info.original_call_type;
  phone_or_watch = info.phone_or_watch;
  new_call_use_box = pos 0;
  ims_domain = pos 0;
  mpty = pos 0;
  phone_index = pos 0;
  reason = pos 1279;
  message = [];
}

unfoldable pub get_dialing_call : CallTable → Option ℕ
get_dialing_call t = elim (get_one_carrier_call_object RunningState.create t) [
  | some p ↦ some p
  | none ↦ elim (get_one_carrier_call_object RunningState.connecting t) [
    | some p ↦ some p
    | none ↦ get_one_carrier_call_object RunningState.dialing t
  ]
]

-- `PackCellularCallInfo` of a dial.
unfoldable pub pack_dial : Bool → DialParaInfo → CellularCallInfo
pack_dial is_rtt info = record {
  call_id = info.call_id;
  phone_num = info.number;
  slot_id = info.account_id;
  call_type = info.call_type;
  video_state = pos (video_code info.video_state);
  index = info.index;
  is_rtt = is_rtt;
}

abbrev pub wait_no_more : World → World
wait_no_more w = record w { table = record (w.table) { need_wait_hold = false } }

module _ (env : Env) where
  unfoldable pub hang_up_all : List ℕ → World → World
  hang_up_all [] w = w
  hang_up_all (p ∷ ps) w = hang_up_all ps (carrier_hang_up_call env p w).0

  unfoldable pub reject_all : List ℕ → World → World
  reject_all [] w = w
  reject_all (p ∷ ps) w = reject_all ps (carrier_reject_call env p w).0

  unfoldable pub ecc_dial_policy : World → World × Code
  unfolding ecc_lists hang_up_all reject_all
  ecc_dial_policy w = elim (ecc_lists w.table (get_carrier_call_list w.table)) [
    | none ↦ (w, Code.call_counts_exceed_limit)
    | some (hs, rs) ↦ (reject_all rs (hang_up_all hs w), Code.success)
  ]

  unfoldable pub handle_dialing_info : Bytes → DialParaInfo → World → World × Code
  unfolding ecc_dial_policy
  handle_dialing_info number info w =
      if env.is_emergency number info.account_id
      then ecc_dial_policy w
      else if is_new_call_allowed_create w.ims_conference.main_call_id w.table
      then (w, Code.success)
      else (w, Code.call_counts_exceed_limit)

  unfoldable pub update_call_report_info : DialParaInfo → Bytes → World → World × Code
  unfolding dialing_report
  update_call_report_info info number w =
      if leb (length number) 255
      then handle_call_report_info env (dialing_report info number) w
      else (w, Code.number_out_of_range)

  unfoldable pub handle_dial_fail : World → World × Code
  unfolding get_dialing_call
  handle_dial_fail w = elim (get_dialing_call w.table) [
    | none ↦ (w, Code.call_state_error)
    | some p ↦ deal_fail_dial env p w
  ]

  unfoldable pub handle_start_dial : DialParaInfo → World → World × Code
  unfolding pack_dial handle_dial_fail send
  handle_start_dial info w =
      let call_info = pack_dial w.last_is_rtt info in
      let (w1, code) = send env (Request.dial call_info) w in
      let (w2, handled) = handle_dial_fail w1 in
      if not (leb (length info.number) 255)
      then (wait_no_more w, Code.number_out_of_range)
      else if w.table.need_wait_hold
      then (record w { dial_call_info = call_info }, Code.success)
      else if is_success code
      then (w1, code)
      else (w2, if is_success handled then code else handled)

  unfoldable pub fail_dialing : World × Code → World × Code
  fail_dialing (w, code) = (wait_no_more (end_dialing env w), code)

  -- `RestoreDialingFlag(true)` and `SetDialingCallProcessing()`.
  unfoldable pub begin_dialing : World → World
  begin_dialing w =
      let (h, l, code) =
        set_dialing_call_processing env.freq env.tick env.ms_to_ticks
          (restore_dialing_flag true w.helper) w.loop in
      record w { helper = h; loop = l }

  unfoldable pub forget_first_dial : World → World
  forget_first_dial w = record w { table = record (w.table) { is_first_dial_call_added = false } }

  unfoldable pub carrier_dial_process : DialParaInfo → World → World × Code
  unfolding begin_dialing handle_dialing_info forget_first_dial update_call_report_info fail_dialing
      handle_start_dial
  carrier_dial_process info w =
      let number = remove_separators_phone_number info.number in
      let (w1, allowed) = handle_dialing_info number info (begin_dialing w) in
      let (w2, reported) = update_call_report_info info number (forget_first_dial w1) in
      if w.helper.is_dialing
      then (w, Code.call_counts_exceed_limit)
      else if not (is_success allowed)
      then fail_dialing (w1, allowed)
      else if not (is_success reported)
      then fail_dialing (w2, reported)
      else handle_start_dial info w2

  unfoldable pub dial_request : World → World × Code
  unfolding carrier_dial_process
  dial_request w =
      if not w.last_is_dialing
      then (w, Code.illegal_call_operation)
      else if not (leb (length w.last_dial.number) 255)
      then (w, Code.number_out_of_range)
      else if w.last_dial_type == dial_carrier_type || w.last_dial_type == dial_voice_mail_type
      then carrier_dial_process w.last_dial w
      else (w, Code.function_not_supported)
