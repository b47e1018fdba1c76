-- ===== src/Manager/Names.antt =====
-- The names of the permissions and of the dial extras in call_manager_service.cpp, as bytes.
use telephony_call_manager_m.Prelude.{[], ◌∷◌, ◌++◌}
use telephony_call_manager_m.Types.{Bytes}

pub data Permission : Type 0 where
  set_telephony_state get_telephony_state place_call answer_call manage_call_for_devices
        get_call_transfer_info send_messages :
      Permission

-- `ohos.permission.`
abbrev name_prefix : Bytes
name_prefix =
    b'o' ∷ b'h' ∷ b'o' ∷ b's' ∷ b'.' ∷ b'p' ∷ b'e' ∷ b'r' ∷ b'm' ∷ b'i' ∷ b's' ∷ b's' ∷ b'i' ∷ b'o'
    ∷ b'n' ∷ b'.' ∷ []

abbrev pub name_of : Permission → Bytes
name_of Permission.set_telephony_state =
    name_prefix
    ++ (b'S' ∷ b'E' ∷ b'T' ∷ b'_' ∷ b'T' ∷ b'E' ∷ b'L' ∷ b'E' ∷ b'P' ∷ b'H' ∷ b'O' ∷ b'N' ∷ b'Y'
        ∷ b'_' ∷ b'S' ∷ b'T' ∷ b'A' ∷ b'T' ∷ b'E' ∷ [])
name_of Permission.get_telephony_state =
    name_prefix
    ++ (b'G' ∷ b'E' ∷ b'T' ∷ b'_' ∷ b'T' ∷ b'E' ∷ b'L' ∷ b'E' ∷ b'P' ∷ b'H' ∷ b'O' ∷ b'N' ∷ b'Y'
        ∷ b'_' ∷ b'S' ∷ b'T' ∷ b'A' ∷ b'T' ∷ b'E' ∷ [])
name_of Permission.place_call =
    name_prefix ++ (b'P' ∷ b'L' ∷ b'A' ∷ b'C' ∷ b'E' ∷ b'_' ∷ b'C' ∷ b'A' ∷ b'L' ∷ b'L' ∷ [])
name_of Permission.answer_call =
    name_prefix ++ (b'A' ∷ b'N' ∷ b'S' ∷ b'W' ∷ b'E' ∷ b'R' ∷ b'_' ∷ b'C' ∷ b'A' ∷ b'L' ∷ b'L' ∷ [])
name_of Permission.manage_call_for_devices =
    name_prefix
    ++ (b'M' ∷ b'A' ∷ b'N' ∷ b'A' ∷ b'G' ∷ b'E' ∷ b'_' ∷ b'C' ∷ b'A' ∷ b'L' ∷ b'L' ∷ b'_' ∷ b'F'
        ∷ b'O' ∷ b'R' ∷ b'_' ∷ b'D' ∷ b'E' ∷ b'V' ∷ b'I' ∷ b'C' ∷ b'E' ∷ b'S' ∷ [])
name_of Permission.get_call_transfer_info =
    name_prefix
    ++ (b'G' ∷ b'E' ∷ b'T' ∷ b'_' ∷ b'C' ∷ b'A' ∷ b'L' ∷ b'L' ∷ b'_' ∷ b'T' ∷ b'R' ∷ b'A' ∷ b'N'
        ∷ b'S' ∷ b'F' ∷ b'E' ∷ b'R' ∷ b'_' ∷ b'I' ∷ b'N' ∷ b'F' ∷ b'O' ∷ [])
name_of Permission.send_messages =
    name_prefix
    ++ (b'S' ∷ b'E' ∷ b'N' ∷ b'D' ∷ b'_' ∷ b'M' ∷ b'E' ∷ b'S' ∷ b'S' ∷ b'A' ∷ b'G' ∷ b'E' ∷ b'S'
        ∷ [])

abbrev pub account_id_key : Bytes
account_id_key = b'a' ∷ b'c' ∷ b'c' ∷ b'o' ∷ b'u' ∷ b'n' ∷ b't' ∷ b'I' ∷ b'd' ∷ []

abbrev pub video_state_key : Bytes
video_state_key = b'v' ∷ b'i' ∷ b'd' ∷ b'e' ∷ b'o' ∷ b'S' ∷ b't' ∷ b'a' ∷ b't' ∷ b'e' ∷ []

abbrev pub dial_scene_key : Bytes
dial_scene_key = b'd' ∷ b'i' ∷ b'a' ∷ b'l' ∷ b'S' ∷ b'c' ∷ b'e' ∷ b'n' ∷ b'e' ∷ []

abbrev pub dial_type_key : Bytes
dial_type_key = b'd' ∷ b'i' ∷ b'a' ∷ b'l' ∷ b'T' ∷ b'y' ∷ b'p' ∷ b'e' ∷ []

abbrev pub call_type_key : Bytes
call_type_key = b'c' ∷ b'a' ∷ b'l' ∷ b'l' ∷ b'T' ∷ b'y' ∷ b'p' ∷ b'e' ∷ []

abbrev pub is_rtt_key : Bytes
is_rtt_key = b'i' ∷ b's' ∷ b'R' ∷ b'T' ∷ b'T' ∷ []

abbrev pub phone_index_key : Bytes
phone_index_key = b'p' ∷ b'h' ∷ b'o' ∷ b'n' ∷ b'e' ∷ b'I' ∷ b'n' ∷ b'd' ∷ b'e' ∷ b'x' ∷ []

abbrev pub extra_params_key : Bytes
extra_params_key = b'e' ∷ b'x' ∷ b't' ∷ b'r' ∷ b'a' ∷ b'P' ∷ b'a' ∷ b'r' ∷ b'a' ∷ b'm' ∷ b's' ∷ []

abbrev pub bundle_name_key : Bytes
bundle_name_key = b'b' ∷ b'u' ∷ b'n' ∷ b'd' ∷ b'l' ∷ b'e' ∷ b'N' ∷ b'a' ∷ b'm' ∷ b'e' ∷ []

abbrev pub token_key : Bytes
token_key = b't' ∷ b'o' ∷ b'k' ∷ b'e' ∷ b'n' ∷ []

abbrev pub is_custom_accessibility_key : Bytes
is_custom_accessibility_key =
    b'i' ∷ b's' ∷ b'C' ∷ b'u' ∷ b's' ∷ b't' ∷ b'o' ∷ b'm' ∷ b'A' ∷ b'c' ∷ b'c' ∷ b'e' ∷ b's' ∷ b's'
    ∷ b'i' ∷ b'b' ∷ b'i' ∷ b'l' ∷ b'i' ∷ b't' ∷ b'y' ∷ []

abbrev pub bt_slot_id_unknown_key : Bytes
bt_slot_id_unknown_key =
    b'b' ∷ b't' ∷ b'S' ∷ b'l' ∷ b'o' ∷ b't' ∷ b'I' ∷ b'd' ∷ b'U' ∷ b'n' ∷ b'k' ∷ b'n' ∷ b'o' ∷ b'w'
    ∷ b'n' ∷ []
