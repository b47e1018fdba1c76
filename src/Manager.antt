-- ===== src/Manager.antt =====
-- services/call_manager_service/src/mini/call_manager_service.cpp: the service's entries, which check what the
-- caller may do and hand the request to the control manager. Every entry runs on the main loop.
pub mod Names
pub mod Trusted
pub mod Life
pub mod Asks
pub mod Keeps
pub mod Queries
mod Tests
pub mod DialInfo
use telephony_call_manager_m.Prelude.{
  ℕ, Bool, true, false, not, ◌&&◌, ◌||◌, List, [], ◌∷◌, ◌++◌, Option, none, some, if◌then◌else◌,
  leb, length,
}
use telephony_call_manager_m.Prelude.Eq.{◌==◌}
use telephony_call_manager_m.Prelude.Int.{ℤ, pos, int_eq}
use telephony_call_manager_m.Types.{Bytes, Code, is_success, bytes_eq}
use telephony_call_manager_m.PacMap.{
  PacMap, put_int_value, put_boolean_value, put_string_value, get_int_value, get_boolean_value,
  get_string_value,
}
use telephony_call_manager_m.CallTable.{CallTable, delete_call_object_ptr}
use telephony_call_manager_m.CallTable.Scans.{
  has_cellular_call_exist, has_ringing_call, is_new_call_allowed_create,
}
use telephony_call_manager_m.Policy.{Services}
use telephony_call_manager_m.Service.{World, Env}
use telephony_call_manager_m.AbilityReport.{
  Registered, Told, details, register_callback, un_register_bundle, report_to_bundle,
}
use telephony_call_manager_m.Requests.Control.{
  invalid_call_id, answer_call, reject_call, hang_up_call, hold_call, un_hold_call, switch_call,
  end_call,
}
use telephony_call_manager_m.Requests.Entry.{DialAsked, dial_call}
use telephony_call_manager_m.Manager.Names.{
  Permission, account_id_key, video_state_key, dial_scene_key, dial_type_key, call_type_key,
  is_rtt_key, phone_index_key, extra_params_key, bundle_name_key, token_key,
  is_custom_accessibility_key, bt_slot_id_unknown_key,
}
use telephony_call_manager_m.Manager.Trusted.{Trust, check_permission}

pub record Manager : Type 0 where
  pub ready : Bool
  pub control : Bool  -- callControlManagerPtr_ != nullptr
  pub callback : Option Registered
  pub world : World

-- `BuildDialInfo`.
unfoldable pub build_dial_info : PacMap → Bytes → PacMap
build_dial_info x bundle =
    let m1 = put_int_value account_id_key (get_int_value account_id_key (pos 0) x) [] in
    let m2 = put_int_value video_state_key (get_int_value video_state_key (pos 0) x) m1 in
    let m3 = put_int_value dial_scene_key (get_int_value dial_scene_key (pos 0) x) m2 in
    let m4 = put_int_value dial_type_key (get_int_value dial_type_key (pos 0) x) m3 in
    let m5 = put_int_value call_type_key (get_int_value call_type_key (pos 0) x) m4 in
    let m6 = put_boolean_value is_rtt_key (get_boolean_value is_rtt_key false x) m5 in
    let m7 = put_int_value phone_index_key (get_int_value phone_index_key (pos 0) x) m6 in
    let m8 = put_string_value extra_params_key (get_string_value extra_params_key [] x) m7 in
    let m9 = put_string_value bundle_name_key bundle m8 in
    put_boolean_value bt_slot_id_unknown_key (get_boolean_value bt_slot_id_unknown_key false x) m9

-- What `DialCall` of the control manager reads of the extras.
unfoldable pub dial_asked : List ℕ → PacMap → DialAsked
dial_asked number x = record {
  number = number;
  extras = record {
    dial_type = get_int_value dial_type_key (pos 0) x;
    account_id = get_int_value account_id_key (pos 0) x;
    call_type = get_int_value call_type_key (pos 0) x;
    dial_scene = get_int_value dial_scene_key (pos 0) x;
    video_state = get_int_value video_state_key (pos 0) x;
  };
  is_rtt = get_boolean_value is_rtt_key false x;
  bundle_name = get_string_value bundle_name_key [] x;
  is_custom_accessibility = get_boolean_value is_custom_accessibility_key false x;
  token = get_string_value token_key [] x;
  phone_index = get_int_value phone_index_key (pos 0) x;
}

-- `ACCOUNT_NUMBER_MAX_LENGTH`.
abbrev pub account_number_max_length : ℕ
account_number_max_length = 255

-- One permission of a list is enough.
abbrev pub any_of : Trust → List Permission → Bool
any_of t [] = false
any_of t (p ∷ ps) = if check_permission t p then true else any_of t ps

-- The checks at the head of the entries, in their order: each ends the request with its own code.
abbrev pub guarded : Bool → Code → Manager → Manager × Code → Manager × Code
guarded ok code m next = if ok then next else (m, code)

-- A request that the control manager takes over, if it is there.
unfoldable pub with_control : (World → World × Code) → Manager → Manager × Code
with_control f m =
    let (w, code) = f m.world in
    if m.control then (record m { world = w }, code) else (m, Code.local_ptr_null)

module _ (env : Env) (sv : Services) (t : Trust) where
  abbrev pub as_system : Manager → Manager × Code → Manager × Code
  as_system m next = guarded t.is_system_app Code.illegal_use_of_system_api m next

  abbrev pub with_one_of : List Permission → Manager → Manager × Code → Manager × Code
  with_one_of ps m next = guarded (any_of t ps) Code.permission_err m next

  unfoldable pub register_callback_entry : Option ℕ → Manager → Manager × Code
  unfolding register_callback
  register_callback_entry k m =
      let (o, code) = register_callback k t.bundle_name m.callback in
      with_one_of
        (Permission.set_telephony_state ∷ Permission.get_telephony_state
          ∷ Permission.get_call_transfer_info ∷ [])
        m (record m { callback = o }, code)

  unfoldable pub un_register_callback_entry : Manager → Manager × Code
  unfolding un_register_bundle
  un_register_callback_entry m =
      let (o, code) = un_register_bundle t.bundle_name m.callback in
      as_system m
        (with_one_of (Permission.set_telephony_state ∷ []) m (record m { callback = o }, code))

  unfoldable pub dial_call_entry : List ℕ → PacMap → Manager → Manager × Code
  unfolding build_dial_info dial_asked with_control
  dial_call_entry number x m =
      guarded (leb (length number) account_number_max_length) Code.number_out_of_range m (
        as_system m (
          with_one_of (Permission.place_call ∷ []) m (
            with_control (dial_call env sv (dial_asked number (build_dial_info x t.bundle_name)))
              m)))

  unfoldable pub answer_call_entry : ℤ → ℤ → Bool → Manager → Manager × Code
  unfolding with_control
  answer_call_entry id video_state is_rtt m = as_system m (
      with_one_of (Permission.answer_call ∷ []) m (
        guarded (video_state == pos 0) Code.video_not_supported m (
          guarded (not is_rtt) Code.function_not_supported m
            (with_control (answer_call env id video_state is_rtt) m))))

  unfoldable pub reject_call_entry : ℤ → Bool → List ℕ → Manager → Manager × Code
  unfolding with_control
  reject_call_entry id with_message text m = as_system m (
      with_one_of (Permission.answer_call ∷ Permission.set_telephony_state ∷ []) m (
        guarded (not with_message || check_permission t Permission.send_messages)
          Code.permission_err m
          (guarded (not with_message) Code.function_not_supported m
            (with_control (reject_call env id with_message text) m))))

  unfoldable pub hang_up_call_entry : ℤ → Manager → Manager × Code
  unfolding with_control
  hang_up_call_entry id m = as_system m (
      with_one_of (Permission.answer_call ∷ Permission.set_telephony_state ∷ []) m
        (with_control (hang_up_call env id) m))

  unfoldable pub hold_call_entry : ℤ → Manager → Manager × Code
  unfolding with_control
  hold_call_entry id m =
      as_system m (with_one_of (Permission.answer_call ∷ []) m (with_control (hold_call env id) m))

  unfoldable pub un_hold_call_entry : ℤ → Manager → Manager × Code
  unfolding with_control
  un_hold_call_entry id m =
      as_system m
        (with_one_of (Permission.answer_call ∷ []) m (with_control (un_hold_call env id) m))

  unfoldable pub switch_call_entry : ℤ → Manager → Manager × Code
  unfolding with_control
  switch_call_entry id m =
      as_system m
        (with_one_of (Permission.answer_call ∷ []) m (with_control (switch_call env id) m))

  -- The source returns a Boolean; `fail` stands for false.
  unfoldable pub end_call_entry : Manager → Manager × Code
  end_call_entry m =
      let (w, done) = end_call env m.world in
      guarded t.is_system_app Code.fail m (
        guarded (any_of t (Permission.answer_call ∷ Permission.set_telephony_state ∷ [])) Code.fail
          m
          (guarded m.control Code.fail m
            (record m { world = w }, if done then Code.success else Code.fail)))

  -- The entries without an id, for the call that rings or is up.
  unfoldable pub answer_ringing_entry : Manager → Manager × Code
  unfolding with_control
  answer_ringing_entry m =
      with_one_of (Permission.answer_call ∷ Permission.manage_call_for_devices ∷ []) m
        (with_control (answer_call env invalid_call_id (pos 0) false) m)

  unfoldable pub reject_ringing_entry : Manager → Manager × Code
  unfolding with_control
  reject_ringing_entry m =
      with_one_of
        (Permission.answer_call ∷ Permission.set_telephony_state
          ∷ Permission.manage_call_for_devices ∷ [])
        m (with_control (reject_call env invalid_call_id false []) m)

  unfoldable pub hang_up_current_entry : Manager → Manager × Code
  unfolding with_control
  hang_up_current_entry m =
      with_one_of
        (Permission.answer_call ∷ Permission.set_telephony_state
          ∷ Permission.manage_call_for_devices ∷ [])
        m (with_control (hang_up_call env invalid_call_id) m)
