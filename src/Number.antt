-- ===== src/Number.antt =====
-- utils/mini/src/call_number_utils.cpp, the parts that compute: a phone number is the list of its
-- bytes.
pub mod Dialable
mod Tests
use telephony_call_manager_m.Prelude.{
  Bool, true, false, ◌&&◌, ◌||◌, List, [], ◌∷◌, ℕ, leb, if◌then◌else◌,
}
use telephony_call_manager_m.Prelude.Eq.{◌==◌, nat_eq}
use telephony_call_manager_m.Prelude.Int.{ℤ, pos, leb_ℤ, ltb_ℤ}
use telephony_call_manager_m.Types.{Bytes}

-- `MINI_SLOT_COUNT`.
abbrev pub slot_count : ℤ
slot_count = pos 2

unfoldable pub is_valid_slot_id : ℤ → Bool
is_valid_slot_id slot_id = leb_ℤ (pos 0) slot_id && ltb_ℤ slot_id slot_count

-- The characters that belong to a network address.
unfoldable pub is_address : ℕ → Bool
is_address c = leb b'0' c && leb c b'9' || (c == b'*' || (c == b'#' || (c == b'+' || c == b'N')))

-- The characters that start the digits sent after the call is up.
unfoldable pub is_post_dial : ℕ → Bool
is_post_dial c = c == b',' || c == b';'

-- On the empty string, which the source tests for first, the loop gives the same empty result.
unfoldable pub remove_separators_phone_number : Bytes → Bytes
unfolding is_address is_post_dial
remove_separators_phone_number [] = []
remove_separators_phone_number (c ∷ s) =
    if is_address c || is_post_dial c
    then c ∷ remove_separators_phone_number s
    else remove_separators_phone_number s

unfoldable pub remove_post_dial_phone_number : Bytes → Bytes
unfolding is_address is_post_dial
remove_post_dial_phone_number [] = []
remove_post_dial_phone_number (c ∷ s) =
    if is_address c
    then c ∷ remove_post_dial_phone_number s
    else if is_post_dial c
    then []
    else remove_post_dial_phone_number s
