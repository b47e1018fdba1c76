-- ===== src/Status/Decoded.antt =====
-- What a report that passed the guard means once it is decoded.
use telephony_call_manager_m.Prelude.{
  ℕ, zero, suc, ◌≤◌, ◌≡◌, Bool, true, ◌&&◌, [], ◌∷◌, length, take, arith,
}
use telephony_call_manager_m.Prelude.Eq.{nat_eq}
use telephony_call_manager_m.Prelude.Int.{ℤ, pos, negsuc, int_eq}
use telephony_call_manager_m.Types.{TelCallState, Bytes, call_type_code, video_code}
use telephony_call_manager_m.Number.{is_valid_slot_id}
use telephony_call_manager_m.Status.Reported.{
  CallReportInfo, is_reported_state, is_carrier_call_type, is_video_state, has_nul, is_terminated,
  number_capacity, is_valid_report, tel_state_of, call_type_at, video_state_at, c_string,
  copied_number, detail_of,
}

copied_lem :
    (n : ℕ) (text : Bytes)
    → has_nul (take (suc n) text) ≡ true
    → (c_string (take n text) ≡ c_string text) × (length (c_string (take n text)) ≤ n)
unfolding c_string
copied_lem n [] e = cc
copied_lem zero (b ∷ s) e = ground arith
copied_lem (suc n) (b ∷ s) e = ground (arith, copied_lem n s)

-- The string in the whole array is the one in what was copied, and it fits.
copied_number_lem :
    (text : Bytes)
    → is_terminated number_capacity text ≡ true
    → (copied_number text ≡ c_string text) × (length (copied_number text) ≤ 255)
unfolding is_terminated copied_number
copied_number_lem text e = copied_lem 255 text e

-- The integer of a state, from -1 on.
abbrev pub tel_integer : TelCallState → ℤ
tel_integer TelCallState.unknown = negsuc 0
tel_integer TelCallState.active = pos 0
tel_integer TelCallState.holding = pos 1
tel_integer TelCallState.dialing = pos 2
tel_integer TelCallState.alerting = pos 3
tel_integer TelCallState.incoming = pos 4
tel_integer TelCallState.waiting = pos 5
tel_integer TelCallState.disconnected = pos 6
tel_integer TelCallState.disconnecting = pos 7
tel_integer TelCallState.idle = pos 8
tel_integer TelCallState.answered = pos 9

tel_state_of-integer : (k : ℤ) → is_reported_state k ≡ true → tel_integer (tel_state_of k) ≡ k
unfolding is_reported_state tel_state_of
tel_state_of-integer (negsuc n) e = ground arith
tel_state_of-integer (pos n) e = ground arith

call_type_at-code :
    (k : ℤ) → is_carrier_call_type k ≡ true → pos (call_type_code (call_type_at k)) ≡ k
unfolding is_carrier_call_type call_type_at
call_type_at-code (negsuc n) e = ground arith
call_type_at-code (pos n) e = ground arith

video_state_at-code : (k : ℤ) → is_video_state k ≡ true → pos (video_code (video_state_at k)) ≡ k
unfolding is_video_state video_state_at
video_state_at-code (negsuc n) e = ground arith
video_state_at-code (pos n) e = ground arith

and-left : (a b : Bool) → a && b ≡ true → a ≡ true
and-left a b e = ground arith

and-right : (a b : Bool) → a && b ≡ true → b ≡ true
and-right a b e = ground arith

-- A report that the guard lets through keeps its meaning: the state, the type and the video state are
-- the constants with the codes that were sent, the slot is valid, and the number is the string in the
-- array, whole, and at most 255 bytes long.
pub detail_of-valid :
    (r : CallReportInfo)
    → is_valid_report r ≡ true
    → let d = detail_of r in
      (tel_integer d.state ≡ r.state)
      × ((pos (call_type_code d.call_type) ≡ r.call_type)
          × ((pos (video_code d.call_mode) ≡ r.call_mode)
              × ((is_valid_slot_id d.account_id ≡ true)
                  × ((d.phone_num ≡ c_string r.account_num) × (length d.phone_num ≤ 255)))))
unfolding is_valid_report
detail_of-valid r e =
    let slot = and-left (is_valid_slot_id r.account_id) _ e in
    let rest = and-right (is_valid_slot_id r.account_id) _ e in
    let enums = and-left (is_reported_state r.state && _) _ rest in
    let state = and-left (is_reported_state r.state) _ enums in
    let two = and-right (is_reported_state r.state) _ enums in
    let call_type = and-left (is_carrier_call_type r.call_type) _ two in
    let mode = and-right (is_carrier_call_type r.call_type) _ two in
    let number =
      copied_number_lem r.account_num (and-right (is_reported_state r.state && _) _ rest) in
    unfold detail_of in
    (
      tel_state_of-integer r.state state,
      (
        call_type_at-code r.call_type call_type,
        (video_state_at-code r.call_mode mode, (slot, (number.0, number.1))),
      ),
    )
