-- ===== src/CallTable/Scans.antt =====
-- The questions of `CallObjectManager` that walk through the whole table: counts, limits, id lists and
-- the choice of the call in the foreground.
use telephony_call_manager_m.Prelude.{
  ℕ, Bool, true, false, not, ◌&&◌, ◌||◌, Option, none, some, List, [], ◌∷◌, if◌then◌else◌, leb,
}
use telephony_call_manager_m.Prelude.Eq.{◌==◌}
use telephony_call_manager_m.Prelude.Int.{ℤ, pos, int_eq}
use telephony_call_manager_m.Prelude.Search.{find_if, any_if, count_if}
use telephony_call_manager_m.Types.{
  TelCallState, RunningState, TelConferenceState, CallType, VideoStateType, Code, tel_eq,
  running_eq, tel_conference_eq, call_type_eq, video_eq,
}
use telephony_call_manager_m.Call.{Call}
use telephony_call_manager_m.CallTable.{CallTable, id_of}
use telephony_call_manager_m.CallTable.Queries.{
  is_voip, is_carrier, get_one_call_object, get_one_carrier_call_object,
}

abbrev pub is_setting_up : RunningState → Bool
is_setting_up s =
    s == RunningState.create || (s == RunningState.connecting || s == RunningState.dialing)

unfoldable pub has_new_call : CallTable → Code
unfolding any_if
has_new_call t =
    if any_if
      (λ p.
        not (is_voip (t.heap p))
        && (is_setting_up (t.heap p).running_state || (t.heap p).call_type == CallType.satellite))
      t.calls
    then Code.call_counts_exceed_limit
    else Code.success

carrier_ids : CallTable → List ℕ → List ℤ
carrier_ids t [] = []
carrier_ids t (p ∷ ps) =
    if is_carrier (t.heap p) then id_of t p ∷ carrier_ids t ps else carrier_ids t ps

unfoldable pub get_carrier_call_list : CallTable → List ℤ
unfolding carrier_ids
get_carrier_call_list t = carrier_ids t t.calls

-- The step of the loop of `GetCurrentCallNum`, which `IsNewCallAllowedCreate` repeats: a call counts
-- if it is in no conference, or if it is the conference's main call. `main` is
-- `ImsConference::GetMainCall()`.
abbrev pub counts_as_call : ℤ → ℤ → Call → Bool
counts_as_call main id c = c.conference_state == TelConferenceState.idle || main == id

abbrev count_id : CallTable → ℤ → ℤ → Option ℕ → Bool
count_id t main id none = false
count_id t main id (some p) = counts_as_call main id (t.heap p)

unfoldable pub get_current_call_num : ℤ → CallTable → ℕ
unfolding count_if get_one_call_object get_carrier_call_list
get_current_call_num main t =
    count_if (λ id. count_id t main id (get_one_call_object id t)) (get_carrier_call_list t)

-- The out-parameter `enabled`; the result is always success.
unfoldable pub is_new_call_allowed_create : ℤ → CallTable → Bool
unfolding get_current_call_num any_if
is_new_call_allowed_create main t =
    if any_if
      (λ p.
        not (is_voip (t.heap p))
        && (is_setting_up (t.heap p).running_state
            || (t.heap p).running_state == RunningState.ringing))
      t.calls
    then false
    else not (leb 2 (get_current_call_num main t))

-- `RINGING_CALL_NUMBER_LEN`.
abbrev pub ringing_call_number_len : ℕ
ringing_call_number_len = 30

-- `DIALING_CALL_NUMBER_LEN`.
abbrev pub dialing_call_number_len : ℕ
dialing_call_number_len = 30

unfoldable pub get_call_num_by_running_state : RunningState → CallTable → ℕ
unfolding count_if
get_call_num_by_running_state s t = count_if (λ p. (t.heap p).running_state == s) t.calls

unfoldable pub has_ringing_maximum : CallTable → Bool
unfolding count_if
has_ringing_maximum t =
    leb ringing_call_number_len
      (count_if (λ p. (t.heap p).running_state == RunningState.ringing) t.calls)

-- The source counts the active calls here.
unfoldable pub has_dialing_maximum : CallTable → Bool
unfolding count_if
has_dialing_maximum t =
    leb dialing_call_number_len
      (count_if (λ p. (t.heap p).running_state == RunningState.active) t.calls)

unfoldable pub has_emergency_call : CallTable → Bool
unfolding any_if
has_emergency_call t = any_if (λ p. (t.heap p).is_ecc) t.calls

unfoldable pub has_call_exist : CallTable → Bool
has_call_exist t = elim t.calls [ [] ↦ false | _ ∷ _ ↦ true ]

unfoldable pub has_cellular_call_exist : CallTable → Bool
unfolding any_if
has_cellular_call_exist t =
    any_if
      (λ p.
        is_carrier (t.heap p)
        && (not ((t.heap p).call_state == TelCallState.disconnected)
            && not ((t.heap p).call_state == TelCallState.disconnecting)))
      t.calls

-- `CRS_TYPE` is 2.
unfoldable pub has_incoming_call_crs_type : CallTable → Bool
unfolding any_if
has_incoming_call_crs_type t =
    any_if (λ p. (t.heap p).running_state == RunningState.ringing && (t.heap p).crs_type == pos 2)
      t.calls

unfoldable pub has_video_call : CallTable → Bool
unfolding any_if
has_video_call t =
    any_if (λ p. (t.heap p).video_state == VideoStateType.video && not (is_voip (t.heap p))) t.calls

unfoldable pub has_ringing_call : CallTable → Bool
unfolding any_if
has_ringing_call t = any_if (λ p. (t.heap p).running_state == RunningState.ringing) t.calls

unfoldable pub has_hold_call : CallTable → Bool
unfolding any_if
has_hold_call t = any_if (λ p. (t.heap p).running_state == RunningState.hold) t.calls

unfoldable pub get_call_num : TelCallState → CallTable → ℕ
unfolding count_if
get_call_num s t = count_if (λ p. (t.heap p).call_state == s && not (is_voip (t.heap p))) t.calls

abbrev pub is_ringing_state : TelCallState → Bool
is_ringing_state s = s == TelCallState.waiting || s == TelCallState.incoming

abbrev pub is_live_state : TelCallState → Bool
is_live_state s =
    s == TelCallState.alerting || (s == TelCallState.dialing || s == TelCallState.active)

abbrev pub is_skipped : Bool → Call → Bool
is_skipped include_voip c = not include_voip && is_voip c

-- The loop of `GetForegroundCall`: a ringing call ends it, a live or held one is kept so far.
unfoldable pub foreground_from : Bool → CallTable → Option ℕ → List ℕ → Option ℕ
foreground_from include_voip t live [] = live
foreground_from include_voip t live (p ∷ ps) =
    let c = t.heap p in
    let held = is_live_state c.call_state || c.call_state == TelCallState.holding in
    let rest =
      foreground_from include_voip t
        (if not (is_skipped include_voip c) && held then some p else live) ps in
    if not (is_skipped include_voip c) && is_ringing_state c.call_state then some p else rest

unfoldable pub get_foreground_call : Bool → CallTable → Option ℕ
unfolding foreground_from
get_foreground_call include_voip t = foreground_from include_voip t none t.calls

unfoldable pub get_foreground_live_call : Bool → CallTable → Option ℕ
unfolding find_if
get_foreground_live_call include_voip t =
    find_if (λ p. not (is_skipped include_voip (t.heap p)) && is_live_state (t.heap p).call_state)
      t.calls

unfoldable pub get_incoming_call : Bool → CallTable → Option ℕ
unfolding find_if
get_incoming_call include_voip t =
    find_if
      (λ p. not (is_skipped include_voip (t.heap p)) && is_ringing_state (t.heap p).call_state)
      t.calls

abbrev pub or_else {ℓ} : {A : Type ℓ} → Option A → Option A → Option A
or_else none o = o
or_else (some a) o = some a

unfoldable pub get_audio_live_call : CallTable → Option ℕ
unfolding get_foreground_live_call get_incoming_call get_one_carrier_call_object
get_audio_live_call t =
    or_else (get_foreground_live_call false t)
      (or_else (get_incoming_call false t) (get_one_carrier_call_object RunningState.hold t))

-- The loop of `GetForegroundLiveCallByCallId`, over the calls with the id.
unfoldable pub live_by_id_from : ℤ → CallTable → Option ℕ → List ℕ → Option ℕ
live_by_id_from id t live [] = live
live_by_id_from id t live (p ∷ ps) =
    let c = t.heap p in
    let rest =
      live_by_id_from id t
        (if c.call_id == id && is_ringing_state c.call_state then some p else live) ps in
    if c.call_id == id && is_live_state c.call_state then some p else rest

unfoldable pub get_foreground_live_call_by_call_id : ℤ → CallTable → Option ℕ
unfolding live_by_id_from
get_foreground_live_call_by_call_id id t = live_by_id_from id t none t.calls
