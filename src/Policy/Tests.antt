-- ===== src/Policy/Tests.antt =====
-- Requests on a table with one call, and a dial.
use telephony_call_manager_m.Prelude.{◌≡◌, ◌↔◌, refl, true, false}
use telephony_call_manager_m.Prelude.Int.{pos, negsuc}
use telephony_call_manager_m.Types.{TelCallState, RunningState, Code}
use telephony_call_manager_m.Samples.{call_in, table_of}
use telephony_call_manager_m.Call.{new_call}
use telephony_call_manager_m.CallTable.{CallTable, allocate, empty_table, add_one_call_object}
use telephony_call_manager_m.CallTable.Scans.{has_emergency_call}
use telephony_call_manager_m.Policy.{
  Services, DialExtras, dial_policy, select_account_id_for_carrier, voice_value, dial_carrier_type,
  call_normal,
}
use telephony_call_manager_m.Policy.Dial.{IsSupported, IsReady, dial_policy_accepts}

abbrev ringing : CallTable
ringing = table_of (call_in (pos 1) TelCallState.incoming RunningState.ringing)

abbrev in_service : Services
in_service = record {
  has_sim_card = λ _. true;
  is_network_in_service = λ _. true;
  video_call_waiting = λ _. false;
  carrier_vt_config = λ _. false;
}

-- A voice dial with no account chosen.
abbrev extras : DialExtras
extras = record {
  dial_type = dial_carrier_type;
  account_id = negsuc 0;
  call_type = pos 1;
  dial_scene = call_normal;
  video_state = voice_value;
}

dialed_from_slot_0 : (dial_policy in_service extras false ringing).1 ≡ Code.success
unfolding dial_policy allocate empty_table add_one_call_object new_call has_emergency_call
dialed_from_slot_0 = refl

dial_policy_accepts_example : ((dial_policy in_service extras false ringing).1 ≡ Code.success) ↔ (
    IsSupported extras
    × IsReady in_service (select_account_id_for_carrier extras).account_id false ringing)
dial_policy_accepts_example = dial_policy_accepts in_service extras false ringing
