-- ===== src/Reports/Calls.antt =====
-- What the handlers of call_status_manager.cpp share: the change of a call's state with its notice, the
-- pending hang-up, the conferences, and the marks on a call.
use telephony_call_manager_m.Prelude.{
  ℕ, ◌+◌, Bool, true, false, not, ◌&&◌, ◌||◌, List, [], ◌∷◌, map, none, some, if◌then◌else◌, bit_or,
  length, leb,
}
use telephony_call_manager_m.Prelude.Eq.{◌==◌, nat_eq}
use telephony_call_manager_m.Prelude.Int.{ℤ, pos, int_eq}
use telephony_call_manager_m.Types.{
  TelCallState, RunningState, TelConferenceState, CallType, AnswerType, CallClass, Bytes, Code,
  video_code, tel_eq, running_eq, tel_conference_eq, call_type_eq,
}
use telephony_call_manager_m.Number.{is_valid_slot_id}
use telephony_call_manager_m.Call.{Call, set_tel_call_state}
use telephony_call_manager_m.CallTable.{update_one_call_object_by_call_id}
use telephony_call_manager_m.CallTable.Queries.{get_one_call_object_by_index_and_slot_id}
use telephony_call_manager_m.Conference.{
  Conference, call_exit_conference, call_hold_conference, cs_launch_conference,
  ims_launch_conference, get_sub_call_id_list,
}
use telephony_call_manager_m.Status.{
  CallDetailInfo, get_call_attribute_base_info, refresh_call_if_necessary,
}
use telephony_call_manager_m.Service.{World, Env, edit, notify_call_state_updated}
use telephony_call_manager_m.Service.Pending.{
  set_pending_mo, has_pending_mo, set_pending_hangup, has_pending_hangup, no_call,
  remove_pending_hangup_protect_task,
}
use telephony_call_manager_m.Carrier.{call_at, carrier_hang_up_call}

-- Both conferences, by the class of the call.
abbrev conference_of : CallClass → World → Conference
conference_of CallClass.cs_call w = w.cs_conference
conference_of CallClass.ims_call w = w.ims_conference

abbrev pub with_conference : CallClass → Conference → World → World
with_conference CallClass.cs_call f w = record w { cs_conference = f }
with_conference CallClass.ims_call f w = record w { ims_conference = f }

-- `call->ExitConference()`, `call->HoldConference()` and `call->LaunchConference()`.
unfoldable pub exit_conference : ℕ → World → World
unfolding edit
exit_conference p w =
    let k = (call_at p w).call_class in
    let (f, c, r) = call_exit_conference (call_at p w) (conference_of k w) in
    edit p (λ d. record d { conference_state = c.conference_state }) (with_conference k f w)

unfoldable pub hold_conference_at : ℕ → World → World
unfolding edit
hold_conference_at p w =
    let k = (call_at p w).call_class in
    let (f, c, r) = call_hold_conference (call_at p w) (conference_of k w) in
    edit p (λ d. record d { conference_state = c.conference_state }) (with_conference k f w)

abbrev launch_of : CallClass → ℕ → Call → World → Conference × Call × Code
launch_of CallClass.cs_call now c w = cs_launch_conference now c w.cs_conference
launch_of CallClass.ims_call now c w = ims_launch_conference now c w.ims_conference

unfoldable pub launch_conference : ℕ → ℕ → World → World
unfolding edit
launch_conference now p w =
    let k = (call_at p w).call_class in
    let (f, c, r) = launch_of k now (call_at p w) w in
    edit p (λ d. record d { conference_state = c.conference_state }) (with_conference k f w)

-- The length of the list that `GetSubCallIdList` fills.
unfoldable pub sub_call_count : ℕ → World → ℕ
sub_call_count p w =
    let c = call_at p w in
    length (get_sub_call_id_list (λ (i : ℤ). i) c.call_id (conference_of c.call_class w)).0

abbrev is_set : Code → Bool
is_set Code.success = true
is_set Code.not_new_state = true
is_set _ = false

-- `UpdateCallState` of a call that is there: the object is set, then every call with its id.
unfoldable pub update_call_state : Env → ℕ → TelCallState → World → World × Code
unfolding edit
update_call_state env p next w =
    let prior = (call_at p w).call_state in
    let code = (set_tel_call_state env.now next (call_at p w)).1 in
    let w1 = edit p (λ c. (set_tel_call_state env.now next c).0) w in
    let w2 = record w1 {
      table = update_one_call_object_by_call_id env.now (call_at p w1).call_id next w1.table;
    } in
    let (w3, notified) = notify_call_state_updated p prior next w2 in
    if is_set code
    then (w3, if notified then Code.success else Code.phone_callstate_notify_failed)
    else (w2, Code.local_ptr_null)

-- `SetPendingHangup(false, -1)` with the removal of the protecting task.
unfoldable pub clear_pending_hangup : Env → World → World
clear_pending_hangup env w =
    let (h, l) =
      remove_pending_hangup_protect_task env.freq env.tick env.ms_to_ticks
        (set_pending_hangup false no_call w.helper) w.loop in
    record w { helper = h; loop = l }

unfoldable pub clear_pending_mo : ℤ → World → World
clear_pending_mo id w =
    if has_pending_mo id w.helper
    then record w { helper = set_pending_mo false no_call w.helper }
    else w

-- A hang-up that waited is sent now, unless the call has ended.
unfoldable pub clear_pending_state : Env → ℕ → World → World
unfolding clear_pending_hangup clear_pending_mo
clear_pending_state env p w =
    let id = (call_at p w).call_id in
    let w1 = clear_pending_mo id w in
    let w2 =
      if (call_at p w1).running_state == RunningState.ended
      then w1
      else (carrier_hang_up_call env p w1).0 in
    if has_pending_hangup id w1.helper then clear_pending_hangup env w2 else w1

abbrev is_ringing_out_or_in : TelCallState → Bool
is_ringing_out_or_in s =
    s == TelCallState.alerting || (s == TelCallState.incoming || s == TelCallState.waiting)

-- An `int32_t` of video bits is a number here.
unfoldable pub original_type_for_active : Call → ℕ
original_type_for_active c =
    let video = video_code c.video_state in
    if is_ringing_out_or_in c.call_state
    then video
    else if c.call_state == TelCallState.active || c.call_state == TelCallState.holding
    then bit_or c.original_call_type video
    else c.original_call_type

unfoldable pub set_original_call_type_for_active_state : ℕ → World → World
unfolding edit original_type_for_active
set_original_call_type_for_active_state p w =
    edit p (λ c. record c { original_call_type = original_type_for_active c }) w

abbrev is_rejected : AnswerType → Bool
is_rejected AnswerType.rejected = true
is_rejected _ = false

-- `TYPE_VOICE` is 0.
unfoldable pub original_type_for_disconnect : Call → ℕ
original_type_for_disconnect c =
    let s = c.call_state in
    if (s == TelCallState.dialing || s == TelCallState.alerting)
      || ((s == TelCallState.incoming || s == TelCallState.waiting)
          && not (is_rejected (get_call_attribute_base_info c).answer_type))
    then 0
    else c.original_call_type

unfoldable pub set_original_call_type_for_disconnect_state : ℕ → World → World
unfolding edit original_type_for_disconnect
set_original_call_type_for_disconnect_state p w =
    edit p (λ c. record c { original_call_type = original_type_for_disconnect c }) w

-- `RefreshCallIfNecessary`, on the state: the address of the call afterwards.
unfoldable pub refresh : Env → CallDetailInfo → ℕ → World → World × ℕ
refresh env info p w =
    let (t, f, q) = refresh_call_if_necessary env.now w.last_dial info p w.table w.cs_conference in
    (record w { table = t; cs_conference = f }, q)

-- The members of the conference that the latest report of the slot names.
unfoldable pub conference_calls : World → List CallDetailInfo → List ℕ
conference_calls w [] = []
conference_calls w (i ∷ is) =
    let rest = conference_calls w is in
    let found = get_one_call_object_by_index_and_slot_id i.index i.account_id w.table in
    if i.mpty == pos 1 then elim found [ none ↦ rest | some p ↦ p ∷ rest ] else rest

unfoldable pub get_conference_call_list : ℤ → World → List ℕ
unfolding conference_calls
get_conference_call_list slot_id w =
    if is_valid_slot_id slot_id then conference_calls w (w.latest slot_id) else []

-- `SetConferenceCall`: every call is taken out of its conference and launched again.
unfoldable pub set_conference_call : Env → List ℕ → World → World
unfolding edit
set_conference_call env [] w = w
set_conference_call env (p ∷ ps) w =
    let w1 = edit p (λ c. record c { conference_state = TelConferenceState.idle }) w in
    let w2 = launch_conference env.now.first p w1 in
    set_conference_call env ps (update_call_state env p (call_at p w2).call_state w2).0

-- `::tolower` and `find("elsewhere")`.
abbrev pub to_lower : ℕ → ℕ
to_lower c = if leb 65 c && leb c 90 then c + 32 else c

abbrev pub is_prefix : Bytes → Bytes → Bool
is_prefix [] s = true
is_prefix (a ∷ p) [] = false
is_prefix (a ∷ p) (b ∷ s) = if a == b then is_prefix p s else false

unfoldable pub has_text : Bytes → Bytes → Bool
has_text p [] = is_prefix p []
has_text p (b ∷ s) = if is_prefix p (b ∷ s) then true else has_text p s

abbrev pub elsewhere : Bytes
elsewhere = 101 ∷ 108 ∷ 115 ∷ 101 ∷ 119 ∷ 104 ∷ 101 ∷ 114 ∷ 101 ∷ []

-- `DISCONNECTED_REASON_CS_CALL_ANSWERED_ELSEWHER` and `DISCONNECTED_REASON_ANSWERED_ELSEWHER`.
unfoldable pub is_answered_elsewhere : ℤ → Bytes → CallType → Bool
unfolding has_text
is_answered_elsewhere reason message k =
    if reason == pos 13
    then k == CallType.cs
    else if reason == pos 18632
    then has_text elsewhere (map to_lower message)
    else false

unfoldable pub refresh_call_disconnect_reason : ℕ → ℤ → Bytes → World → World
unfolding edit
refresh_call_disconnect_reason p reason message w =
    if is_answered_elsewhere reason message (call_at p w).call_type
    then edit p (λ c. record c { answer_type = AnswerType.answered_elsewhere }) w
    else w
