-- ===== src/Types.antt =====
-- The enumerations of interfaces/innerkits/call_manager_base.h, services/call/include/common_type.h
-- and services/call/include/conference_base.h that the call objects and the table read, and the
-- result codes of interfaces/innerkits/call_manager_errors.h.
use telephony_call_manager_m.Prelude.{
  ℕ, ◌≡◌, ◌↔◌, Bool, true, false, List, [], ◌∷◌, ◌&&◌, arith, nat_beq,
}
use telephony_call_manager_m.Prelude.Eq.{BoolEq}

-- `CALL_STATUS_UNKNOWN` is -1 in the source; every code here is the source's plus one.
pub data TelCallState : Type 0 where
  unknown active holding dialing alerting incoming waiting disconnected disconnecting idle
        answered :
      TelCallState

abbrev pub tel_code : TelCallState → ℕ
tel_code TelCallState.unknown = 0
tel_code TelCallState.active = 1
tel_code TelCallState.holding = 2
tel_code TelCallState.dialing = 3
tel_code TelCallState.alerting = 4
tel_code TelCallState.incoming = 5
tel_code TelCallState.waiting = 6
tel_code TelCallState.disconnected = 7
tel_code TelCallState.disconnecting = 8
tel_code TelCallState.idle = 9
tel_code TelCallState.answered = 10

pub data RunningState : Type 0 where
  create connecting dialing ringing active hold ended ending : RunningState

abbrev pub running_code : RunningState → ℕ
running_code RunningState.create = 0
running_code RunningState.connecting = 1
running_code RunningState.dialing = 2
running_code RunningState.ringing = 3
running_code RunningState.active = 4
running_code RunningState.hold = 5
running_code RunningState.ended = 6
running_code RunningState.ending = 7

pub data TelConferenceState : Type 0 where
  idle active holding disconnecting disconnected : TelConferenceState

abbrev pub tel_conference_code : TelConferenceState → ℕ
tel_conference_code TelConferenceState.idle = 0
tel_conference_code TelConferenceState.active = 1
tel_conference_code TelConferenceState.holding = 2
tel_conference_code TelConferenceState.disconnecting = 3
tel_conference_code TelConferenceState.disconnected = 4

pub data CallType : Type 0 where
  cs ims ott err_call voip satellite bluetooth : CallType

abbrev pub call_type_code : CallType → ℕ
call_type_code CallType.cs = 0
call_type_code CallType.ims = 1
call_type_code CallType.ott = 2
call_type_code CallType.err_call = 3
call_type_code CallType.voip = 4
call_type_code CallType.satellite = 5
call_type_code CallType.bluetooth = 6

pub data VideoStateType : Type 0 where
  voice send_only receive_only video : VideoStateType

abbrev pub video_code : VideoStateType → ℕ
video_code VideoStateType.voice = 0
video_code VideoStateType.send_only = 1
video_code VideoStateType.receive_only = 2
video_code VideoStateType.video = 3

pub data AnswerType : Type 0 where
  missed actived rejected answered_elsewhere : AnswerType

pub data RejectType : Type 0 where
  normal missed_call : RejectType

pub data CallDirection : Type 0 where
  direction_in direction_out direction_unknow : CallDirection

-- The dynamic class of a call object.
pub data CallClass : Type 0 where
  cs_call ims_call : CallClass

-- `other` stands for a code that an implementation of the cellular stack or of the core service
-- returns and this program does not name.
pub data Code : Type 0 where
  success : Code
  telephony_error fail argument_invalid local_ptr_null memcpy_fail uninit : Code
  no_sim_card airplane_mode_on network_not_in_service policy_disabled ipc_connect_stub_fail : Code
  phone_call_already_exists call_counts_exceed_limit number_out_of_range : Code
  function_not_supported not_new_state phone_answer_is_busy invalid_callid : Code
  not_in_the_conference illegal_call_operation conference_seperate_failed : Code
  conference_call_exceed_limit conference_not_exists conference_call_is_not_active : Code
  call_is_not_activated call_is_not_on_holding phone_calls_too_few invalid_slot_id : Code
  unknow_call_type dial_is_busy : Code
  answer_failed reject_failed hangup_failed hold_failed unhold_failed : Code
  emergency_unsupport_conferenceable call_object_is_null call_state_mismatch_operation : Code
  phone_callstate_notify_failed phone_type_unexpected call_state_error : Code
  phone_number_empty video_not_supported unknow_dial_type : Code
  illegal_use_of_system_api permission_err : Code
  register_callback_fail unregister_callback_fail : Code
  other : ℕ → Code

abbrev pub is_success : Code → Bool
is_success Code.success = true
is_success _ = false

-- `if (ret != TELEPHONY_SUCCESS) { return ret; }` between two checks.
abbrev pub and_then : Code → Code → Code
and_then Code.success k = k
and_then e _ = e

pub tel_code_iff : (a b : TelCallState) → (nat_beq (tel_code a) (tel_code b) ≡ true) ↔ (a ≡ b)
tel_code_iff a b = ground arith

pub running_code_iff :
    (a b : RunningState) → (nat_beq (running_code a) (running_code b) ≡ true) ↔ (a ≡ b)
running_code_iff a b = ground arith

pub tel_conference_code_iff :
    (a b : TelConferenceState)
    → (nat_beq (tel_conference_code a) (tel_conference_code b) ≡ true) ↔ (a ≡ b)
tel_conference_code_iff a b = ground arith

pub call_type_code_iff :
    (a b : CallType) → (nat_beq (call_type_code a) (call_type_code b) ≡ true) ↔ (a ≡ b)
call_type_code_iff a b = ground arith

pub video_code_iff :
    (a b : VideoStateType) → (nat_beq (video_code a) (video_code b) ≡ true) ↔ (a ≡ b)
video_code_iff a b = ground arith

instance abbrev pub tel_eq : BoolEq TelCallState
tel_eq = record { same = λ a b. nat_beq (tel_code a) (tel_code b); same_iff = tel_code_iff }

instance abbrev pub running_eq : BoolEq RunningState
running_eq = record {
  same = λ a b. nat_beq (running_code a) (running_code b);
  same_iff = running_code_iff;
}

instance abbrev pub tel_conference_eq : BoolEq TelConferenceState
tel_conference_eq = record {
  same = λ a b. nat_beq (tel_conference_code a) (tel_conference_code b);
  same_iff = tel_conference_code_iff;
}

instance abbrev pub call_type_eq : BoolEq CallType
call_type_eq = record {
  same = λ a b. nat_beq (call_type_code a) (call_type_code b);
  same_iff = call_type_code_iff;
}

instance abbrev pub video_eq : BoolEq VideoStateType
video_eq = record { same = λ a b. nat_beq (video_code a) (video_code b); same_iff = video_code_iff }

-- A `std::string` is the list of its bytes.
abbrev pub Bytes : Type 0
Bytes = List ℕ

abbrev pub bytes_beq : Bytes → Bytes → Bool
bytes_beq [] [] = true
bytes_beq (a ∷ s) (b ∷ t) = nat_beq a b && bytes_beq s t
bytes_beq _ _ = false

pub bytes_beq_iff : (s t : Bytes) → (bytes_beq s t ≡ true) ↔ (s ≡ t)
bytes_beq_iff [] [] = ground arith
bytes_beq_iff [] (b ∷ t) = ground arith
bytes_beq_iff (a ∷ s) [] = ground arith
bytes_beq_iff (a ∷ s) (b ∷ t) = ground (arith, bytes_beq_iff s t)

instance abbrev pub bytes_eq : BoolEq Bytes
bytes_eq = record { same = bytes_beq; same_iff = bytes_beq_iff }
