-- ===== src/CallTable/Queries.antt =====
-- The questions of `CallObjectManager` that look for one call, in the table's order or from its end.
use telephony_call_manager_m.Prelude.{ℕ, Bool, false, not, ◌&&◌, ◌||◌, Option, none, some, [], ◌∷◌}
use telephony_call_manager_m.Prelude.Eq.{◌==◌}
use telephony_call_manager_m.Prelude.Int.{ℤ, int_eq}
use telephony_call_manager_m.Prelude.Search.{find_if, find_last_if, any_if}
use telephony_call_manager_m.Types.{
  TelCallState, RunningState, TelConferenceState, CallType, Bytes, tel_eq, running_eq,
  tel_conference_eq, call_type_eq, video_eq, bytes_eq,
}
use telephony_call_manager_m.Number.{remove_post_dial_phone_number}
use telephony_call_manager_m.Call.{Call}
use telephony_call_manager_m.CallTable.{CallTable, id_of}

abbrev pub is_voip : Call → Bool
is_voip c = c.call_type == CallType.voip

abbrev pub is_carrier : Call → Bool
is_carrier c =
    c.call_type == CallType.cs
    || (c.call_type == CallType.ims
        || (c.call_type == CallType.satellite || c.call_type == CallType.bluetooth))

-- `GetOneCallObject(int32_t)`.
unfoldable pub get_one_call_object : ℤ → CallTable → Option ℕ
unfolding find_if
get_one_call_object id t = find_if (λ p. id_of t p == id) t.calls

abbrev pub has_number : Bytes → Call → Bool
has_number number c = remove_post_dial_phone_number c.account_number == number

-- `GetOneCallObject(std::string &)`.
unfoldable pub get_call_by_number : Bytes → CallTable → Option ℕ
unfolding find_if remove_post_dial_phone_number
get_call_by_number [] t = none
get_call_by_number (c ∷ s) t = find_if (λ p. has_number (c ∷ s) (t.heap p)) t.calls

-- `GetOneCallObject(CallRunningState)`, the latest call in the state.
unfoldable pub get_call_in : RunningState → CallTable → Option ℕ
unfolding find_last_if
get_call_in s t = find_last_if (λ p. (t.heap p).running_state == s) t.calls

unfoldable pub get_one_carrier_call_object : RunningState → CallTable → Option ℕ
unfolding find_last_if
get_one_carrier_call_object s t =
    find_last_if (λ p. (t.heap p).running_state == s && not (is_voip (t.heap p))) t.calls

unfoldable pub get_one_call_object_by_index : ℤ → CallTable → Option ℕ
unfolding find_if
get_one_call_object_by_index index t =
    find_if (λ p. (t.heap p).index == index && not (is_voip (t.heap p))) t.calls

unfoldable pub get_dialing_call : CallTable → Option ℕ
unfolding find_if
get_dialing_call t = find_if (λ p. (t.heap p).call_state == TelCallState.dialing) t.calls

unfoldable pub get_one_call_object_by_index_and_slot_id : ℤ → ℤ → CallTable → Option ℕ
unfolding find_if
get_one_call_object_by_index_and_slot_id index slot_id t =
    find_if
      (λ p.
        (t.heap p).index == index && ((t.heap p).slot_id == slot_id && not (is_voip (t.heap p))))
      t.calls

-- The call type and the phone index are arguments that the source does not read.
unfoldable pub get_one_call_object_by_index_slot_id_and_call_type :
    ℤ → ℤ → CallType → ℤ → CallTable → Option ℕ
unfolding find_if
get_one_call_object_by_index_slot_id_and_call_type index slot_id call_type phone_index t =
    find_if
      (λ p.
        not ((t.heap p).call_type == CallType.bluetooth)
        && ((t.heap p).index == index
            && ((t.heap p).slot_id == slot_id && not (is_voip (t.heap p)))))
      t.calls

-- `IsCallExist(int32_t)`.
unfoldable pub is_call_exist : ℤ → CallTable → Bool
unfolding any_if
is_call_exist id t = any_if (λ p. id_of t p == id) t.calls

-- `IsCallExist(std::string &)`.
unfoldable pub is_number_exist : Bytes → CallTable → Bool
unfolding any_if remove_post_dial_phone_number
is_number_exist [] t = false
is_number_exist (c ∷ s) t = any_if (λ p. has_number (c ∷ s) (t.heap p)) t.calls

-- `IsCallExist(CallType, TelCallState)`.
unfoldable pub is_typed_call_exist : CallType → TelCallState → CallTable → Bool
unfolding any_if
is_typed_call_exist k s t =
    any_if (λ p. (t.heap p).call_type == k && (t.heap p).call_state == s) t.calls

-- `IsCallExist(TelCallState)`.
unfoldable pub is_state_exist : TelCallState → CallTable → Bool
unfolding any_if
is_state_exist s t = any_if (λ p. (t.heap p).call_state == s) t.calls

abbrev id_if_found : CallTable → Option ℕ → Option ℤ
id_if_found t none = none
id_if_found t (some p) = some (id_of t p)

-- `IsCallExist(TelCallState, int32_t &)`: the id that it writes if it returns true.
unfoldable pub find_state_id : TelCallState → CallTable → Option ℤ
unfolding find_if
find_state_id s t = id_if_found t (find_if (λ p. (t.heap p).call_state == s) t.calls)

-- `IsConferenceCallExist`, read as `find_state_id` is.
unfoldable pub find_conference_id : TelConferenceState → CallTable → Option ℤ
unfolding find_if
find_conference_id s t = id_if_found t (find_if (λ p. (t.heap p).conference_state == s) t.calls)

-- `HasActivedCallExist`, read as `find_state_id` is.
unfoldable pub find_actived_id : CallTable → Option ℤ
unfolding find_if
find_actived_id t = id_if_found t (
    find_if (λ p. (t.heap p).call_state == TelCallState.active && not (is_voip (t.heap p))) t.calls)

-- `GetCallState`; an unknown id is idle.
unfoldable pub get_call_state : ℤ → CallTable → TelCallState
unfolding find_if
get_call_state id t = elim (find_if (λ p. id_of t p == id) t.calls) [
  | none ↦ TelCallState.idle
  | some p ↦ (t.heap p).call_state
]

-- `GetCallNumber`; the empty string if there is no such call.
unfoldable pub get_call_number : TelCallState → CallTable → Bytes
unfolding find_if
get_call_number s t =
    elim (find_if (λ p. (t.heap p).call_state == s && not (is_voip (t.heap p))) t.calls) [
      | none ↦ []
      | some p ↦ (t.heap p).account_number
    ]
