-- ===== src/Requests/Entry.antt =====
-- services/call/src/mini/call_control_manager.cpp: `DialCall`, the entry of a dial. The caller's extras that
-- the policy reads are `DialExtras`; those that only reach fields outside the model are left out.
use telephony_call_manager_m.Prelude.{ℕ, Bool, true, not, ◌&&◌, ◌||◌, List, if◌then◌else◌}
use telephony_call_manager_m.Prelude.Eq.{◌==◌}
use telephony_call_manager_m.Prelude.Int.{ℤ, pos, negsuc, int_eq}
use telephony_call_manager_m.Types.{CallType, VideoStateType, Bytes, Code, is_success, video_code}
use telephony_call_manager_m.Utf.{str16_to_str8}
use telephony_call_manager_m.Number.{remove_separators_phone_number}
use telephony_call_manager_m.CallTable.{CallTable}
use telephony_call_manager_m.CallTable.Scans.{has_new_call}
use telephony_call_manager_m.Policy.{
  Services, DialExtras, dial_policy, can_dial_mulity_call, is_support_video_call, dial_carrier_type,
  dial_voice_mail_type, call_emergency, voice_value, video_value,
}
use telephony_call_manager_m.Service.{World, Env}
use telephony_call_manager_m.Requests.Control.{number_legality_check}
use telephony_call_manager_m.Requests.Dial.{dial_request}

pub record DialAsked : Type 0 where
  pub number : List ℕ  -- UTF-16 units
  pub extras : DialExtras
  pub is_rtt : Bool
  pub bundle_name : Bytes
  pub is_custom_accessibility : Bool
  pub token : Bytes
  pub phone_index : ℤ

-- The policy has let through the types 0 and 1 only, and the video states 0 and 3.
unfoldable pub call_type_of : ℤ → CallType
call_type_of k = if k == pos 0 then CallType.cs else CallType.ims

unfoldable pub video_state_of : ℤ → VideoStateType
video_state_of v = if v == voice_value then VideoStateType.voice else VideoStateType.video

-- The type follows the video state, which is voice where video is not supported.
unfoldable pub set_call_type_extras : Services → DialExtras → DialExtras
set_call_type_extras sv x =
    let y = if is_support_video_call sv x then x else (record x { video_state = voice_value }) in
    if x.dial_type == dial_carrier_type || x.dial_type == dial_voice_mail_type
    then if y.video_state == video_value then record y { call_type = pos 1 } else y
    else x

unfoldable pub can_dial : Services → DialExtras → Bool → CallTable → DialExtras × Code
can_dial sv x is_ecc t =
    let (y, code) = dial_policy sv x is_ecc t in
    if is_success code then (y, can_dial_mulity_call sv y is_ecc t) else (y, code)

-- `ERR_ID` is -1. The fields that the source does not set keep what the last dial left.
unfoldable pub package_dial_information : DialAsked → DialExtras → Bytes → Bool → World → World
unfolding call_type_of video_state_of
package_dial_information a x number is_ecc w = record w {
  last_dial = record (w.last_dial) {
    account_id = x.account_id;
    call_id = negsuc 0;
    number = number;
    video_state = video_state_of x.video_state;
    call_type = call_type_of x.call_type;
    is_ecc = is_ecc;
    bundle_name = a.bundle_name;
    original_call_type = video_code (video_state_of x.video_state);
    dial_scene = x.dial_scene;
  };
  last_dial_type = x.dial_type;
  last_is_dialing = true;
  last_is_rtt = a.is_rtt;
  last_is_custom_accessibility = a.is_custom_accessibility;
  last_token = a.token;
  last_phone_index = a.phone_index;
}

-- The checks behind the number's.
unfoldable pub dial_number : Env → Services → DialAsked → Bytes → World → World × Code
unfolding can_dial set_call_type_extras package_dial_information
dial_number env sv a number w =
    let x = a.extras in
    let is_ecc = env.is_emergency number x.account_id in
    let x1 = if is_ecc then (record x { dial_scene = call_emergency }) else x in
    let (x2, allowed) = can_dial sv x1 is_ecc w.table in
    if not (is_success allowed)
    then (w, allowed)
    else if not is_ecc && not (is_success (has_new_call w.table))
    then (w, Code.call_counts_exceed_limit)
    else dial_request env (package_dial_information a (set_call_type_extras sv x2) number is_ecc w)

unfoldable pub dial_call : Env → Services → DialAsked → World → World × Code
unfolding dial_number
dial_call env sv a w =
    let (number, legal) = number_legality_check (str16_to_str8 a.number) in
    if is_success legal
    then dial_number env sv a (remove_separators_phone_number number) w
    else (w, legal)
