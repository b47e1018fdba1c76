-- ===== src/Samples.antt =====
-- Calls and tables for the tests.
pub mod Worlds
use telephony_call_manager_m.Prelude.{Bool, false, some, [], ◌∷◌}
use telephony_call_manager_m.Prelude.Int.{ℤ, pos}
use telephony_call_manager_m.Types.{
  TelCallState, RunningState, CallType, VideoStateType, CallClass, CallDirection,
}
use telephony_call_manager_m.Call.{Call, DialParaInfo, new_call}
use telephony_call_manager_m.CallTable.{CallTable, empty_table, allocate, add_one_call_object}

abbrev pub info : ℤ → Bool → DialParaInfo
info id is_ecc = record {
  account_id = pos 0;
  call_id = id;
  index = id;
  number = 49 ∷ 48 ∷ [];
  video_state = VideoStateType.voice;
  call_type = CallType.cs;
  call_state = TelCallState.idle;
  is_ecc = is_ecc;
  bundle_name = [];
  crs_type = pos 0;
  original_call_type = 0;
  phone_or_watch = pos 0;
  new_call_use_box = pos 0;
  dial_scene = pos 0;
}

abbrev pub new_cs_call : ℤ → Bool → Call
new_cs_call id is_ecc = new_call CallClass.cs_call CallDirection.direction_out (info id is_ecc)

abbrev pub call_in : ℤ → TelCallState → RunningState → Call
call_in id s r = record (new_cs_call id false) { call_state = s; running_state = r }

abbrev pub at_start : CallTable
at_start = empty_table (new_cs_call (pos 0) false)

-- A table with the given call as its only one, at address 0.
abbrev pub table_of : Call → CallTable
table_of c = (add_one_call_object (some 0) (allocate c at_start).0).0
