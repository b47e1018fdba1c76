-- ===== src/Status.antt =====
-- services/call/src/mini/call_status_manager.cpp: how a call object is replaced when the network moves
-- the call between CS and IMS (`RefreshCallIfNecessary`). The time and what the control manager keeps of
-- the last dial are arguments.
pub mod Refresh
pub mod Runs
pub mod Reported
pub mod Decoded
mod Tests
use telephony_call_manager_m.Prelude.{
  ℕ, Bool, true, false, not, ◌&&◌, Option, none, some, if◌then◌else◌, leb, length, bit_or,
}
use telephony_call_manager_m.Prelude.Eq.{◌==◌}
use telephony_call_manager_m.Prelude.Int.{ℤ, pos, int_eq}
use telephony_call_manager_m.Types.{
  TelCallState, CallType, VideoStateType, AnswerType, CallDirection, CallClass, Bytes, Code,
  is_success, call_type_eq, video_eq,
}
use telephony_call_manager_m.Call.{Clock, Call, DialParaInfo, new_call, set_tel_call_state}
use telephony_call_manager_m.CallTable.{
  CallTable, allocate, modify, get_new_call_id, id_of, add_one_call_object, delete_one_call_object,
}
use telephony_call_manager_m.Conference.{Conference, update_conference_id}

-- What the network reports of one call.
pub record CallDetailInfo : Type 0 where
  pub index : ℤ
  pub account_id : ℤ
  pub phone_num : Bytes
  pub call_mode : VideoStateType
  pub call_type : CallType
  pub state : TelCallState
  pub bundle_name : Bytes
  pub crs_type : ℤ
  pub original_call_type : ℕ
  pub phone_or_watch : ℤ
  pub new_call_use_box : ℤ
  pub ims_domain : ℤ
  pub mpty : ℤ
  pub phone_index : ℤ
  pub reason : ℤ
  pub message : Bytes

-- The part of `CallAttributeInfo` that a replacement takes over.
pub record Attributes : Type 0 where
  pub start_time : ℕ
  pub call_begin_time : ℕ
  pub call_create_time : ℕ
  pub call_end_time : ℕ
  pub ring_begin_time : ℕ
  pub ring_end_time : ℕ
  pub direction : CallDirection
  pub answer_type : AnswerType
  pub ims_domain : ℤ

-- `kMaxNumberLen`.
abbrev pub max_number_len : ℕ
max_number_len = 255

-- A number that is too long leaves the attributes at their defaults.
unfoldable pub get_call_attribute_base_info : Call → Attributes
get_call_attribute_base_info c =
    if leb (length c.account_number) max_number_len
    then record {
      start_time = c.start_time;
      call_begin_time = c.call_begin_time;
      call_create_time = c.call_create_time;
      call_end_time = c.call_end_time;
      ring_begin_time = c.ring_begin_time;
      ring_end_time = c.ring_end_time;
      direction = c.direction;
      answer_type = c.answer_type;
      ims_domain = c.ims_domain;
    }
    else record {
      start_time = 0;
      call_begin_time = 0;
      call_create_time = 0;
      call_end_time = 0;
      ring_begin_time = 0;
      ring_end_time = 0;
      direction = CallDirection.direction_unknow;
      answer_type = AnswerType.missed;
      ims_domain = pos 0;
    }

-- `last_dial` is what `GetDialParaInfo` gives: the parameters and the scene of the last dial.
unfoldable pub pack_para_info : DialParaInfo → CallDetailInfo → CallDirection → ℤ → DialParaInfo
pack_para_info last_dial info dir id = record {
  account_id = info.account_id;
  call_id = id;
  index = info.index;
  number = info.phone_num;
  video_state = info.call_mode;
  call_type = info.call_type;
  call_state = info.state;
  is_ecc = elim dir [ CallDirection.direction_out ↦ last_dial.is_ecc | _ ↦ false ];
  bundle_name = info.bundle_name;
  crs_type = info.crs_type;
  original_call_type = info.original_call_type;
  phone_or_watch = info.phone_or_watch;
  new_call_use_box = info.new_call_use_box;
  dial_scene = elim dir [ CallDirection.direction_out ↦ last_dial.dial_scene | _ ↦ pos 0 ];
}

class_of : CallType → Option CallClass
class_of CallType.cs = some CallClass.cs_call
class_of CallType.ims = some CallClass.ims_call
class_of _ = none

-- The constructors without extras are those of an incoming call.
abbrev built_as : CallDirection → CallDirection
built_as CallDirection.direction_out = CallDirection.direction_out
built_as _ = CallDirection.direction_in

-- `CreateNewCall` with `SetCallParams`; `CALL_EMERGENCY` is 2.
unfoldable pub create_new_call :
    Clock → DialParaInfo → CallDetailInfo → CallDirection → CallTable → CallTable × Option ℕ
unfolding pack_para_info class_of get_new_call_id new_call allocate
create_new_call now last_dial info dir t =
    let (t1, id) = get_new_call_id t in
    let para = pack_para_info last_dial info dir id in
    elim (class_of info.call_type) [
      | none ↦ (t1, none)
      | some k ↦
          let c = new_call k (built_as dir) para in
          let (t2, p) =
            allocate
              (record c {
                is_ecc_contact = if para.dial_scene == pos 2 then true else c.is_ecc_contact;
                original_call_type = info.original_call_type;
                call_create_time = now.first;
              })
              t1 in
          (t2, some p)
    ]

-- What the replacement takes over from the old object before its state is set.
unfoldable pub take_over : Attributes → Call → Call → Call
take_over a old c = record c {
  running_state = old.running_state;
  conference_state = old.conference_state;
  start_time = a.start_time;
  policy_flag = bit_or c.policy_flag old.policy_flag;
  is_speakerphone_on = old.is_speakerphone_on;
  call_begin_time = a.call_begin_time;
  call_create_time = a.call_create_time;
  call_end_time = a.call_end_time;
  ring_begin_time = a.ring_begin_time;
  ring_end_time = a.ring_end_time;
  answer_type = a.answer_type;
  is_muted = old.is_muted;
}

abbrev moves_to_cs : CallDetailInfo → Call → Call → Bool
moves_to_cs info old c =
    old.call_type == CallType.ims && (c.call_type == CallType.cs && info.mpty == pos 1)

-- The second half of `RefreshCall`: the replacement at address `p` for the object at `q`.
unfoldable pub replace_call :
    Clock
    → CallDetailInfo
    → Attributes
    → ℕ
    → ℕ
    → CallTable
    → Conference
    → CallTable × Conference × ℕ
replace_call now info a q p t f =
    let old = t.heap q in
    let emptied = (delete_one_call_object old.call_id t).0 in
    let renamed = modify p (λ c. record c { call_id = old.call_id }) emptied in
    let (added, code) = add_one_call_object (some p) renamed in
    let finish = λ (c : Call).
      record ((set_tel_call_state now old.call_state (take_over a old c)).0) {
        ims_domain = a.ims_domain;
      } in
    if is_success code
    then (
      modify p finish added,
      if moves_to_cs info old (added.heap p) then update_conference_id old.call_id f else f,
      p,
    )
    else ((add_one_call_object (some q) added).0, f, q)

-- `RefreshCall`: the address of the object that stands for the call afterwards.
unfoldable pub refresh_call :
    Clock → DialParaInfo → CallDetailInfo → ℕ → CallTable → Conference → CallTable × Conference × ℕ
unfolding create_new_call get_call_attribute_base_info
refresh_call now last_dial info q t f =
    let a = get_call_attribute_base_info (t.heap q) in
    let (t1, o) = create_new_call now last_dial info a.direction t in
    elim o [ none ↦ (t1, f, q) | some p ↦ replace_call now info a q p t1 f ]

-- What `RefreshCallIfNecessary` sets on the object that it is given.
unfoldable pub refresh_marks : CallDetailInfo → Call → Call
refresh_marks info c =
    let ims = c.call_type == CallType.ims in
    record c {
      new_call_use_box = info.new_call_use_box;
      video_state =
          if ims && not (c.video_state == info.call_mode) then info.call_mode else c.video_state;
      ims_domain = info.ims_domain;
      crs_type = if ims then info.crs_type else c.crs_type;
    }

unfoldable pub refresh_call_if_necessary :
    Clock → DialParaInfo → CallDetailInfo → ℕ → CallTable → Conference → CallTable × Conference × ℕ
unfolding refresh_marks refresh_call modify
refresh_call_if_necessary now last_dial info q t f =
    let marked = modify q (refresh_marks info) t in
    let refreshed = refresh_call now last_dial info q marked f in
    if (t.heap q).call_type == info.call_type then (marked, f, q) else refreshed
