-- ===== src/Policy.antt =====
-- services/call/src/mini/call_policy.cpp: which requests are let through, on the table as it is. What
-- the cellular stack and the core service answer is a parameter (`Services`).
pub mod Dial
pub mod Requests
mod Tests
use telephony_call_manager_m.Prelude.{
  ℕ, Bool, true, false, not, ◌&&◌, ◌||◌, Option, none, some, List, [], ◌∷◌, if◌then◌else◌, leb, ltb,
  length,
}
use telephony_call_manager_m.Prelude.Eq.{◌==◌, nat_eq}
use telephony_call_manager_m.Prelude.Int.{ℤ, pos, int_eq}
use telephony_call_manager_m.Types.{
  TelCallState, RunningState, VideoStateType, CallType, Code, is_success, and_then, video_eq,
  call_type_eq, running_eq, tel_eq,
}
use telephony_call_manager_m.Number.{is_valid_slot_id}
use telephony_call_manager_m.Call.{Call}
use telephony_call_manager_m.CallTable.{CallTable}
use telephony_call_manager_m.CallTable.Queries.{
  is_voip, get_one_call_object, get_call_in, is_call_exist, is_state_exist, get_call_state,
}
use telephony_call_manager_m.CallTable.Scans.{
  has_emergency_call, has_cellular_call_exist, has_video_call, get_carrier_call_list,
}

-- The answers that the policy asks other components for, by slot: `HasSimCard` and `IsNetworkInService`
-- of `CoreServiceClient`, `GetVideoCallWaiting` and `GetCarrierVtConfig` of `CellularCallConnection`. A
-- call that fails leaves its out-parameter false.
pub record Services : Type 0 where
  pub has_sim_card : ℤ → Bool
  pub is_network_in_service : ℤ → Bool
  pub video_call_waiting : ℤ → Bool
  pub carrier_vt_config : ℤ → Bool

-- The dial extras that the policy reads. A caller can put any integer in them, and the casts to the
-- enums keep it.
pub record DialExtras : Type 0 where
  pub dial_type : ℤ
  pub account_id : ℤ
  pub call_type : ℤ
  pub dial_scene : ℤ
  pub video_state : ℤ

-- `DialType`, as integers.
abbrev pub dial_carrier_type : ℤ
dial_carrier_type = pos 0

abbrev pub dial_voice_mail_type : ℤ
dial_voice_mail_type = pos 1

abbrev pub dial_ott_type : ℤ
dial_ott_type = pos 2

abbrev pub dial_bluetooth_type : ℤ
dial_bluetooth_type = pos 3

-- `DialScene`, as integers.
abbrev pub call_normal : ℤ
call_normal = pos 0

abbrev pub call_privileged : ℤ
call_privileged = pos 1

abbrev pub call_emergency : ℤ
call_emergency = pos 2

-- `TYPE_VOICE` and `TYPE_VIDEO` of `VideoStateType`, as integers.
abbrev pub voice_value : ℤ
voice_value = pos 0

abbrev pub video_value : ℤ
video_value = pos 3

unfoldable pub check_dial_type : ℤ → Code
check_dial_type k =
    if k == dial_carrier_type || k == dial_voice_mail_type
    then Code.success
    else if k == dial_ott_type || k == dial_bluetooth_type
    then Code.function_not_supported
    else Code.argument_invalid

-- `IsDialingEnable` lets every number through.
unfoldable pub check_mdm_policy : Code
check_mdm_policy = Code.success

unfoldable pub select_account_id_for_carrier : DialExtras → DialExtras
unfolding is_valid_slot_id
select_account_id_for_carrier x =
    if x.dial_type == dial_carrier_type && not (is_valid_slot_id x.account_id)
    then record x { account_id = pos 0 }
    else x

-- `TYPE_OTT`, `TYPE_BLUETOOTH` and `TYPE_SATELLITE` are 2, 6 and 5.
unfoldable pub is_valid_call_type : ℤ → Code
is_valid_call_type k =
    if k == pos 0 || k == pos 1
    then Code.success
    else if k == pos 2 || (k == pos 5 || k == pos 6)
    then Code.function_not_supported
    else Code.unknow_call_type

unfoldable pub validate_call_type : ℤ → Code
unfolding is_valid_call_type
validate_call_type k = elim (is_valid_call_type k) [
  | Code.function_not_supported ↦ Code.function_not_supported
  | Code.success ↦ Code.success
  | _ ↦ Code.argument_invalid
]

unfoldable pub validate_dial_scene : ℤ → Code
validate_dial_scene s =
    if s == call_normal || (s == call_privileged || s == call_emergency)
    then Code.success
    else Code.argument_invalid

unfoldable pub validate_video_state : ℤ → Code
validate_video_state v =
    if v == voice_value || v == video_value then Code.success else Code.argument_invalid

unfoldable pub check_call_limit : Bool → CallTable → Code
check_call_limit is_ecc t =
    if not is_ecc && has_emergency_call t then Code.call_counts_exceed_limit else Code.success

-- `GetAirplaneMode` fails in this build, so its answer is not used.
unfoldable pub has_normal_call : Services → Bool → ℤ → Code
has_normal_call sv is_ecc slot_id =
    if is_ecc
    then Code.success
    else if not (sv.has_sim_card slot_id)
    then Code.no_sim_card
    else if not (sv.is_network_in_service slot_id)
    then Code.network_not_in_service
    else Code.success

-- The checks of `DialPolicy` behind the choice of the account.
dial_checks : Services → DialExtras → Bool → CallTable → Code
unfolding validate_call_type validate_dial_scene validate_video_state check_call_limit
    has_normal_call
dial_checks sv x is_ecc t = and_then (validate_call_type x.call_type) (
    and_then (validate_dial_scene x.dial_scene) (
      and_then (validate_video_state x.video_state)
        (and_then (check_call_limit is_ecc t) (has_normal_call sv is_ecc x.account_id))))

-- The extras are passed by reference: the selected account stays in them.
unfoldable pub dial_policy : Services → DialExtras → Bool → CallTable → DialExtras × Code
unfolding check_dial_type check_mdm_policy select_account_id_for_carrier dial_checks
dial_policy sv x is_ecc t =
    if is_success (check_dial_type x.dial_type)
    then (
      select_account_id_for_carrier x,
      and_then check_mdm_policy (dial_checks sv (select_account_id_for_carrier x) is_ecc t),
    )
    else (x, check_dial_type x.dial_type)

unfoldable pub can_dial_mulity_call : Services → DialExtras → Bool → CallTable → Code
can_dial_mulity_call sv x is_ecc t =
    if sv.video_call_waiting x.account_id
    then Code.success
    else if x.video_state == video_value && has_cellular_call_exist t
    then Code.dial_is_busy
    else if not is_ecc && (x.video_state == voice_value && has_video_call t)
    then Code.dial_is_busy
    else Code.success

unfoldable pub is_support_video_call : Services → DialExtras → Bool
is_support_video_call sv x = sv.carrier_vt_config x.account_id && x.dial_scene == call_normal

is_voice_ring : Option ℕ → CallTable → Bool
is_voice_ring none t = false
is_voice_ring (some p) t =
    (t.heap p).video_state == VideoStateType.voice && not (is_voip (t.heap p))

unfoldable pub is_voice_call_valid : VideoStateType → CallTable → Code
unfolding is_voice_ring
is_voice_call_valid v t =
    if v == VideoStateType.voice && is_voice_ring (get_call_in RunningState.ringing t) t
    then Code.call_counts_exceed_limit
    else Code.success

abbrev pub rings_or_waits : TelCallState → Bool
rings_or_waits s = s == TelCallState.incoming || s == TelCallState.waiting

unfoldable pub reject_call_policy : ℤ → CallTable → Code
reject_call_policy id t =
    if not (is_call_exist id t)
    then Code.argument_invalid
    else if rings_or_waits (get_call_state id t)
    then Code.success
    else Code.illegal_call_operation

unfoldable pub answer_call_policy : ℤ → ℤ → CallTable → Code
unfolding reject_call_policy
answer_call_policy id video_state t =
    if not (video_state == voice_value || video_state == video_value)
    then Code.argument_invalid
    else reject_call_policy id t

unfoldable pub hold_call_policy : ℤ → CallTable → Code
hold_call_policy id t = elim (get_one_call_object id t) [
  | none ↦ Code.argument_invalid
  | some p ↦
      if (t.heap p).running_state == RunningState.active
      then Code.success
      else Code.call_is_not_activated
]

unfoldable pub un_hold_call_policy : ℤ → CallTable → Code
un_hold_call_policy id t = elim (get_one_call_object id t) [
  | none ↦ Code.argument_invalid
  | some p ↦
      if (t.heap p).running_state == RunningState.hold
      then Code.success
      else Code.call_is_not_on_holding
]

unfoldable pub hang_up_policy : ℤ → CallTable → Code
hang_up_policy id t =
    let s = get_call_state id t in
    if not (is_call_exist id t)
    then Code.argument_invalid
    else if s == TelCallState.idle
        || (s == TelCallState.disconnecting || s == TelCallState.disconnected)
    then Code.illegal_call_operation
    else Code.success

-- `onlyTwoCall_` is 2.
unfoldable pub switch_call_policy : ℤ → CallTable → Code
switch_call_policy id t =
    if not (is_call_exist id t)
    then Code.argument_invalid
    else if ltb (length (get_carrier_call_list t)) 2
    then Code.phone_calls_too_few
    else if not (get_call_state id t == TelCallState.holding)
        || (is_state_exist TelCallState.dialing t || is_state_exist TelCallState.alerting t)
    then Code.illegal_call_operation
    else Code.success

unfoldable pub is_valid_slot_id_code : ℤ → Code
is_valid_slot_id_code slot_id =
    if not (is_valid_slot_id slot_id) then Code.invalid_slot_id else Code.success
