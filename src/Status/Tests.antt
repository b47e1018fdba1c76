-- ===== src/Status/Tests.antt =====
-- A full table: four ordinary calls and an emergency call, and a replacement for the first one.
use telephony_call_manager_m.Prelude.{◌≤◌, length, true, []}
use telephony_call_manager_m.Status.Reported.{
  CallReportInfo, is_valid_report, is_reported_state, is_carrier_call_type, is_video_state,
  detail_of, c_string,
}
use telephony_call_manager_m.Status.Decoded.{tel_integer, detail_of-valid}
use telephony_call_manager_m.Number.{is_valid_slot_id}
use telephony_call_manager_m.Prelude.{
  ◌≤◌, length, ◌≡◌, ◌≢◌, refl, false, none, some, [], ◌∷◌, arith,
}
use telephony_call_manager_m.Prelude.Eq.{◌==◌, nat_eq}
use telephony_call_manager_m.Prelude.Int.{pos, int_eq}
use telephony_call_manager_m.Prelude.Search.{All, count_if}
use telephony_call_manager_m.Types.{
  TelCallState, CallType, VideoStateType, call_type_code, video_code,
}
use telephony_call_manager_m.Samples.{new_cs_call, at_start}
use telephony_call_manager_m.Call.{Clock, new_call}
use telephony_call_manager_m.CallTable.{CallTable, id_of, is_ecc_at}
use telephony_call_manager_m.CallTable.Queries.{get_one_call_object}
use telephony_call_manager_m.CallTable.Reserve.{Inv}
use telephony_call_manager_m.Conference.{new_conference}
use telephony_call_manager_m.Status.{CallDetailInfo, get_call_attribute_base_info, replace_call}
use telephony_call_manager_m.Status.Refresh.{replace_call_loses}

abbrev full : CallTable
full = record at_start {
  heap = λ p. new_cs_call (pos p) (p == 4);
  next = 6;
  calls = 0 ∷ 1 ∷ 2 ∷ 3 ∷ 4 ∷ [];
}

full-Inv : Inv full
unfolding count_if new_call
full-Inv = record {
  distinct = (
    (
      λ e. ground (arith, e),
      (λ e. ground (arith, e), (λ e. ground (arith, e), (λ e. ground (arith, e), tt))),
    ),
    (
      (λ e. ground (arith, e), (λ e. ground (arith, e), (λ e. ground (arith, e), tt))),
      (
        (λ e. ground (arith, e), (λ e. ground (arith, e), tt)),
        ((λ e. ground (arith, e), tt), (tt, tt)),
      ),
    ),
  );
  bounded = omega arith;
  reserved = omega arith;
  allocated = (omega arith, (omega arith, (omega arith, (omega arith, (omega arith, tt)))));
}

abbrev moved : CallDetailInfo
moved = record {
  index = pos 0;
  account_id = pos 0;
  phone_num = 49 ∷ 48 ∷ [];
  call_mode = VideoStateType.voice;
  call_type = CallType.ims;
  state = TelCallState.active;
  bundle_name = [];
  crs_type = pos 0;
  original_call_type = 0;
  phone_or_watch = pos 0;
  new_call_use_box = pos 0;
  ims_domain = pos 0;
  mpty = pos 0;
  phone_index = pos 0;
  reason = pos 0;
  message = [];
}

first_found : get_one_call_object (id_of full 0) full ≡ some 0
unfolding get_one_call_object new_call
first_found = refl

five-unlisted : All (λ r. r ≢ 5) full.calls
five-unlisted = (
  λ e. omega (arith, e),
  (
    λ e. omega (arith, e),
    (λ e. omega (arith, e), (λ e. omega (arith, e), (λ e. omega (arith, e), tt))),
  ),
)

first_plain : is_ecc_at full 0 ≡ false
unfolding new_call
first_plain = refl

five_plain : is_ecc_at full 5 ≡ false
unfolding new_call
five_plain = refl

abbrev noon : Clock
noon = record { first = 9; second = 9 }

replace_call_loses_example :
    let a = get_call_attribute_base_info (full.heap 0) in
    let (u, g, r) = replace_call noon moved a 0 5 full new_conference in
    (r ≡ 0) × (get_one_call_object (id_of full 0) u ≡ none)
replace_call_loses_example =
    replace_call_loses noon moved (get_call_attribute_base_info (full.heap 0)) 5 0 full
      new_conference full-Inv refl first_found five-unlisted first_plain five_plain

-- An incoming CS call of 10 on the first slot.
abbrev raw_incoming : CallReportInfo
raw_incoming = record {
  index = pos 1;
  account_num = 49 ∷ 48 ∷ 0 ∷ 55 ∷ [];
  account_id = pos 0;
  call_type = pos 0;
  call_mode = pos 0;
  state = pos 4;
  mpty = pos 0;
  crs_type = pos 0;
  original_call_type = 0;
  new_call_use_box = pos 0;
  ims_domain = pos 0;
  phone_index = pos 0;
  reason = pos 0;
  message = [];
}

raw_incoming_valid : is_valid_report raw_incoming ≡ true
unfolding is_valid_report is_reported_state is_carrier_call_type is_video_state is_valid_slot_id
raw_incoming_valid = refl

detail_of-valid_example :
    let d = detail_of raw_incoming in
    (tel_integer d.state ≡ pos 4)
    × ((pos (call_type_code d.call_type) ≡ pos 0)
        × ((pos (video_code d.call_mode) ≡ pos 0)
            × ((is_valid_slot_id d.account_id ≡ true)
                × ((d.phone_num ≡ c_string (49 ∷ 48 ∷ 0 ∷ 55 ∷ [])) × (length d.phone_num ≤ 255)))))
detail_of-valid_example = detail_of-valid raw_incoming raw_incoming_valid
