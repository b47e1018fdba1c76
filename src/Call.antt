-- ===== src/Call.antt =====
-- services/call/src/mini/call_base.cpp and the fields of services/call/src/mini/carrier_call.cpp: one
-- call object. A method that assigns to members returns the new record. `time(nullptr)` is the
-- argument `now`, read once for each call of a method.
pub mod Report
pub mod Timeline
mod Tests
use telephony_call_manager_m.Prelude.{
  ℕ, ◌≡◌, Bool, true, false, not, ◌&&◌, ◌||◌, [], if◌then◌else◌, bit_or,
}
use telephony_call_manager_m.Prelude.Eq.{◌==◌, nat_eq}
use telephony_call_manager_m.Prelude.Int.{ℤ, pos, negsuc}
use telephony_call_manager_m.Types.{
  TelCallState, RunningState, TelConferenceState, CallType, VideoStateType, AnswerType, RejectType,
  CallDirection, CallClass, Code, Bytes, tel_eq, running_eq, tel_conference_eq,
}

-- What a call object is built from (`DialParaInfo`), with the `dialScene` of the dial extras.
pub record DialParaInfo : Type 0 where
  pub account_id : ℤ
  pub call_id : ℤ
  pub index : ℤ
  pub number : Bytes
  pub video_state : VideoStateType
  pub call_type : CallType
  pub call_state : TelCallState
  pub is_ecc : Bool
  pub bundle_name : Bytes
  pub crs_type : ℤ
  pub original_call_type : ℕ
  pub phone_or_watch : ℤ
  pub new_call_use_box : ℤ
  pub dial_scene : ℤ

pub record Call : Type 0 where
  pub call_class : CallClass
  pub call_id : ℤ
  pub call_type : CallType
  pub video_state : VideoStateType
  pub account_number : Bytes
  pub bundle_name : Bytes
  pub running_state : RunningState
  pub conference_state : TelConferenceState
  pub start_time : ℕ
  pub direction : CallDirection
  pub policy_flag : ℕ
  pub call_state : TelCallState
  pub can_un_hold_state : Bool
  pub can_switch_call_state : Bool
  pub answer_video_state : ℤ
  pub is_speakerphone_on : Bool
  pub call_begin_time : ℕ
  pub call_create_time : ℕ
  pub call_end_time : ℕ
  pub ring_begin_time : ℕ
  pub ring_end_time : ℕ
  pub answer_type : AnswerType
  pub account_id : ℤ
  pub crs_type : ℤ
  pub original_call_type : ℕ
  pub is_muted : Bool
  pub is_ecc_contact : Bool
  pub is_answered : Bool
  pub phone_or_watch : ℤ
  pub new_call_use_box : ℤ
  pub ims_domain : ℤ
  pub is_ap_cause_reported : Bool
  pub reject_type : RejectType
  pub dial_scene : ℤ
  pub slot_id : ℤ
  pub index : ℤ
  pub is_ecc : Bool

-- Both constructors of `CallBase` and `CarrierCall`: they differ in the direction and in where the
-- dial scene comes from (an incoming call is `CALL_NORMAL`, 0).
unfoldable pub new_call : CallClass → CallDirection → DialParaInfo → Call
new_call k d info = record {
  call_class = k;
  call_id = info.call_id;
  call_type = info.call_type;
  video_state = info.video_state;
  account_number = info.number;
  bundle_name = info.bundle_name;
  running_state = RunningState.create;
  conference_state = TelConferenceState.idle;
  start_time = 0;
  direction = d;
  policy_flag = 0;
  call_state = info.call_state;
  can_un_hold_state = true;
  can_switch_call_state = true;
  answer_video_state = pos 0;
  is_speakerphone_on = false;
  call_begin_time = 0;
  call_create_time = 0;
  call_end_time = 0;
  ring_begin_time = 0;
  ring_end_time = 0;
  answer_type = AnswerType.missed;
  account_id = info.account_id;
  crs_type = info.crs_type;
  original_call_type = info.original_call_type;
  is_muted = false;
  is_ecc_contact = false;
  is_answered = false;
  phone_or_watch = info.phone_or_watch;
  new_call_use_box = info.new_call_use_box;
  ims_domain = pos 0;
  is_ap_cause_reported = false;
  reject_type = RejectType.normal;
  dial_scene = elim d [ CallDirection.direction_out ↦ info.dial_scene | _ ↦ pos 0 ];
  slot_id = info.account_id;
  index = info.index;
  is_ecc = info.is_ecc;
}

unfoldable pub dial_call_base : Call → Call × Code
dial_call_base c = (record c { running_state = RunningState.connecting }, Code.success)

unfoldable pub incoming_call_base : Call → Call × Code
incoming_call_base c = (record c { running_state = RunningState.ringing }, Code.success)

unfoldable pub is_current_ringing : Call → Bool
is_current_ringing c = c.running_state == RunningState.ringing

unfoldable pub answer_call_base : Call → Code
unfolding is_current_ringing
answer_call_base c = if not (is_current_ringing c) then Code.phone_answer_is_busy else Code.success

unfoldable pub reject_call_base : Call → Call × Code
reject_call_base c = (
  record c {
    answer_type = elim c.reject_type [
      | RejectType.missed_call ↦ AnswerType.missed
      | _ ↦ AnswerType.rejected
    ];
  },
  Code.success,
)

-- What `time(nullptr)` answers during one operation, the first time and the second.
pub record Clock : Type 0 where
  pub first : ℕ
  pub second : ℕ

state_changes_to_dialing : Call → Call
state_changes_to_dialing c = record c { running_state = RunningState.dialing }

-- `StateChangesToIncoming` and `StateChangesToWaiting` have one body.
state_changes_to_incoming : ℕ → Call → Call
state_changes_to_incoming now c = record c {
  running_state = RunningState.ringing;
  ring_begin_time = now;
}

state_changes_to_active : ℕ → Call → Call
state_changes_to_active now c =
    let t = record c { running_state = RunningState.active } in
    if c.call_begin_time == 0
    then record t {
      call_begin_time = now;
      ring_end_time = now;
      start_time = now;
      answer_type = AnswerType.actived;
    }
    else t

state_changes_to_holding : Call → Call
state_changes_to_holding c =
    let t = record c { running_state = RunningState.hold } in
    if c.conference_state == TelConferenceState.active
    then record t { conference_state = TelConferenceState.disconnected }
    else t

-- The end of the ringing is filled in once.
fill_ring_end : ℕ → Call → Call
fill_ring_end now c = if c.ring_end_time == 0 then record c { ring_end_time = now } else c

state_changes_to_disconnected : Clock → Call → Call
unfolding fill_ring_end
state_changes_to_disconnected now c =
    let t = record c { running_state = RunningState.ended } in
    let u =
      if c.conference_state == TelConferenceState.disconnecting
        || c.conference_state == TelConferenceState.active
      then record t { conference_state = TelConferenceState.disconnected }
      else t in
    fill_ring_end now.second (record u { call_end_time = now.first })

state_changes_to_disconnecting : ℕ → Call → Call
unfolding fill_ring_end
state_changes_to_disconnecting now c =
    let t = record c { running_state = RunningState.ending } in
    let u =
      if c.conference_state == TelConferenceState.active
      then record t { conference_state = TelConferenceState.disconnecting }
      else t in
    fill_ring_end now u

state_changes_to_alerting : ℕ → Call → Call
state_changes_to_alerting now c = record c {
  running_state = RunningState.dialing;
  ring_begin_time = now;
}

-- The `switch` of `SetTelCallState`.
state_changes : Clock → TelCallState → Call → Call
unfolding state_changes_to_dialing state_changes_to_incoming state_changes_to_active
    state_changes_to_holding state_changes_to_disconnected state_changes_to_disconnecting
    state_changes_to_alerting
state_changes now TelCallState.dialing c = state_changes_to_dialing c
state_changes now TelCallState.incoming c = state_changes_to_incoming now.first c
state_changes now TelCallState.waiting c = state_changes_to_incoming now.first c
state_changes now TelCallState.active c = state_changes_to_active now.first c
state_changes now TelCallState.holding c = state_changes_to_holding c
state_changes now TelCallState.disconnected c = state_changes_to_disconnected now c
state_changes now TelCallState.disconnecting c = state_changes_to_disconnecting now.first c
state_changes now TelCallState.alerting c = state_changes_to_alerting now.first c
state_changes now _ c = c

-- The guard of `SetTelCallState`: a repeated report, but for a call that is being created or dialed.
unfoldable pub is_duplicate : TelCallState → Call → Bool
is_duplicate next c =
    not (c.running_state == RunningState.create)
    && (c.call_state == next && not (next == TelCallState.dialing))

unfoldable pub set_tel_call_state : Clock → TelCallState → Call → Call × Code
unfolding state_changes is_duplicate
set_tel_call_state now next c =
    if is_duplicate next c
    then (c, Code.not_new_state)
    else (state_changes now next (record c { call_state = next }), Code.success)

unfoldable pub is_alive_state : Call → Bool
is_alive_state c = not (
    c.call_state == TelCallState.idle
    || c.call_state == TelCallState.disconnected
    || c.call_state == TelCallState.disconnecting)

-- `policyFlag_ |= flag`.
unfoldable pub set_policy_flag : ℕ → Call → Call
set_policy_flag flag c = record c { policy_flag = bit_or c.policy_flag flag }
