-- ===== src/Manager/DialInfo.antt =====
-- What a dial's extras come to on their way to the control manager.
use telephony_call_manager_m.Prelude.{ℕ, ◌≡◌, false, List, [], arith}
use telephony_call_manager_m.Types.{Bytes}
use telephony_call_manager_m.PacMap.{
  PacMap, lookup, assign, put, find, put_int_value, put_boolean_value, put_string_value,
  get_int_value, get_boolean_value, get_string_value,
}
use telephony_call_manager_m.Manager.{build_dial_info, dial_asked}

-- The control manager reads from the service's copy of the extras what it would have read from the caller's,
-- but for three values: the bundle's name is always the one that the build gives the caller, and a token and
-- the mark of custom accessibility, which the copy drops, are as if the caller had sent none.
pub build_dial_info_lem :
    (number : List ℕ) (x : PacMap) (bundle : Bytes)
    → dial_asked number (build_dial_info x bundle) ≡ record (dial_asked number x) {
      bundle_name = bundle;
      token = [];
      is_custom_accessibility = false;
    }
unfolding build_dial_info dial_asked put_int_value put_boolean_value put_string_value get_int_value
    get_boolean_value get_string_value put find lookup assign
build_dial_info_lem number x bundle = ground arith
