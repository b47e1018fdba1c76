-- ===== src/Status/Reported.antt =====
-- `CallReportInfo` of interfaces/innerkits/call_manager_info.h, as the cellular stack hands it over: the
-- enumerations are integers that nobody has checked yet, and the number is an array. The tests are
-- those of services/telephony_interaction/src/mini/call_status_callback_guard.cpp, the conversions those of
-- call_status_callback.cpp beside it. The fields that `CallDetailInfo` has here are the ones that are read.
use telephony_call_manager_m.Prelude.{
  ℕ, Bool, true, false, ◌&&◌, ◌||◌, [], ◌∷◌, if◌then◌else◌, take,
}
use telephony_call_manager_m.Prelude.Eq.{◌==◌, nat_eq}
use telephony_call_manager_m.Prelude.Int.{ℤ, pos, negsuc, int_eq, leb_ℤ}
use telephony_call_manager_m.Types.{TelCallState, CallType, VideoStateType, Bytes}
use telephony_call_manager_m.Number.{is_valid_slot_id}
use telephony_call_manager_m.Status.{CallDetailInfo}

pub record CallReportInfo : Type 0 where
  pub index : ℤ
  pub account_num : Bytes  -- the array, not the string in it
  pub account_id : ℤ
  pub call_type : ℤ
  pub call_mode : ℤ
  pub state : ℤ
  pub mpty : ℤ
  pub crs_type : ℤ
  pub original_call_type : ℕ
  pub new_call_use_box : ℤ
  pub ims_domain : ℤ
  pub phone_index : ℤ
  pub reason : ℤ
  pub message : Bytes

-- `CALL_STATUS_ACTIVE` is 0 and `CALL_STATUS_DISCONNECTING` is 7.
unfoldable pub is_reported_state : ℤ → Bool
is_reported_state k = leb_ℤ (pos 0) k && leb_ℤ k (pos 7)

unfoldable pub is_carrier_call_type : ℤ → Bool
is_carrier_call_type k = k == pos 0 || k == pos 1

unfoldable pub is_video_state : ℤ → Bool
is_video_state k = leb_ℤ (pos 0) k && leb_ℤ k (pos 3)

abbrev pub has_nul : Bytes → Bool
has_nul [] = false
has_nul (b ∷ s) = if b == 0 then true else has_nul s

-- `memchr` over the array.
unfoldable pub is_terminated : ℕ → Bytes → Bool
is_terminated capacity text = has_nul (take capacity text)

-- `kMaxNumberLen + 1`.
abbrev pub number_capacity : ℕ
number_capacity = 256

unfoldable pub is_valid_report : CallReportInfo → Bool
unfolding is_reported_state is_carrier_call_type is_video_state is_terminated
is_valid_report r =
    is_valid_slot_id r.account_id
    && ((is_reported_state r.state
          && (is_carrier_call_type r.call_type && is_video_state r.call_mode))
        && is_terminated number_capacity r.account_num)

-- The casts. The guard has let through only the codes that are named here.
unfoldable pub tel_state_of : ℤ → TelCallState
tel_state_of (negsuc n) = TelCallState.unknown
tel_state_of (pos n) =
    if n == 0
    then TelCallState.active
    else if n == 1
    then TelCallState.holding
    else if n == 2
    then TelCallState.dialing
    else if n == 3
    then TelCallState.alerting
    else if n == 4
    then TelCallState.incoming
    else if n == 5
    then TelCallState.waiting
    else if n == 6
    then TelCallState.disconnected
    else if n == 7
    then TelCallState.disconnecting
    else if n == 8
    then TelCallState.idle
    else TelCallState.answered

unfoldable pub call_type_at : ℤ → CallType
call_type_at k = if k == pos 0 then CallType.cs else CallType.ims

unfoldable pub video_state_at : ℤ → VideoStateType
video_state_at k =
    if k == pos 0
    then VideoStateType.voice
    else if k == pos 1
    then VideoStateType.send_only
    else if k == pos 2
    then VideoStateType.receive_only
    else VideoStateType.video

-- The string in an array.
unfoldable pub c_string : Bytes → Bytes
c_string [] = []
c_string (b ∷ s) = let rest = c_string s in if b == 0 then [] else b ∷ rest

-- `memcpy_s` of `kMaxNumberLen` bytes; the byte behind them is 0.
unfoldable pub copied_number : Bytes → Bytes
unfolding c_string
copied_number text = c_string (take 255 text)

-- `CallStatusCallback::UpdateCallsReportInfo`, one call of it.
unfoldable pub detail_of : CallReportInfo → CallDetailInfo
unfolding tel_state_of call_type_at video_state_at copied_number
detail_of r = record {
  index = r.index;
  account_id = r.account_id;
  phone_num = copied_number r.account_num;
  call_mode = video_state_at r.call_mode;
  call_type = call_type_at r.call_type;
  state = tel_state_of r.state;
  bundle_name = [];
  crs_type = r.crs_type;
  original_call_type = r.original_call_type;
  phone_or_watch = pos 0;
  new_call_use_box = r.new_call_use_box;
  ims_domain = r.ims_domain;
  mpty = r.mpty;
  phone_index = pos 0;
  reason = r.reason;
  message = r.message;
}

-- `CallStatusCallback::UpdateCallReportInfo`: the report of a single call passes fewer fields on, and the
-- others keep their defaults; that of the reason is `FAILED_UNKNOWN`.
unfoldable pub single_detail_of : CallReportInfo → CallDetailInfo
unfolding detail_of
single_detail_of r = record (detail_of r) {
  crs_type = pos 0;
  original_call_type = 0;
  new_call_use_box = pos 0;
  ims_domain = pos 0;
  phone_index = r.phone_index;
  reason = pos 1279;
  message = [];
}
