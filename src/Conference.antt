-- ===== src/Conference.antt =====
-- services/call/src/mini/conference_base.cpp, cs_conference.cpp and ims_conference.cpp: the two
-- conference objects of the service, and what a call does to the one of its kind (cs_call.cpp,
-- ims_call.cpp). The two classes have the same bodies, so they share the definitions.
pub mod Members
pub mod Runs
mod Tests
use telephony_call_manager_m.Prelude.{
  ℕ, Bool, true, false, not, ◌&&◌, ◌||◌, List, [], ◌∷◌, ◌++◌, map, if◌then◌else◌, length, leb,
}
use telephony_call_manager_m.Prelude.Eq.{BoolEq, ◌==◌, nat_eq}
use telephony_call_manager_m.Prelude.Int.{ℤ, negsuc, int_eq, ltb_ℤ}
use telephony_call_manager_m.Prelude.IdSet.{contains, insert, erase}
use telephony_call_manager_m.Types.{TelConferenceState, Code, is_success}
use telephony_call_manager_m.Call.{Call}

pub data ConferenceState : Type 0 where
  idle creating holding active leaving : ConferenceState

abbrev pub state_beq : ConferenceState → ConferenceState → Bool
state_beq ConferenceState.idle ConferenceState.idle = true
state_beq ConferenceState.creating ConferenceState.creating = true
state_beq ConferenceState.holding ConferenceState.holding = true
state_beq ConferenceState.active ConferenceState.active = true
state_beq ConferenceState.leaving ConferenceState.leaving = true
state_beq _ _ = false

pub record Conference : Type 0 where
  pub main_call_id : ℤ
  pub state : ConferenceState
  pub old_state : ConferenceState
  pub sub_ids : List ℤ  -- subCallIdSet_
  pub begin_time : ℕ

-- `ERR_ID`.
abbrev pub err_id : ℤ
err_id = negsuc 0

-- `CS_CONFERENCE_MAX_CALLS_CNT`.
abbrev pub max_sub_call_limits : ℕ
max_sub_call_limits = 5

unfoldable pub new_conference : Conference
new_conference = record {
  main_call_id = err_id;
  state = ConferenceState.idle;
  old_state = ConferenceState.idle;
  sub_ids = [];
  begin_time = 0;
}

unfoldable pub set_main_call : ℤ → Conference → Conference × Code
set_main_call id f =
    if ltb_ℤ id err_id
    then (f, Code.invalid_callid)
    else (record f { main_call_id = id }, Code.success)

unfoldable pub set_conference_state : ConferenceState → Conference → Conference
set_conference_state s f = record f { state = s }

-- Nothing in the service calls it.
unfoldable set_old_conference_state : ConferenceState → Conference → Conference
set_old_conference_state s f = record f { old_state = s }

abbrev is_empty : List ℤ → Bool
is_empty [] = true
is_empty (x ∷ s) = false

abbrev first_or : ℤ → List ℤ → ℤ
first_or id [] = id
first_or id (x ∷ s) = x

abbrev pub can_join : ConferenceState → Bool
can_join ConferenceState.idle = false
can_join _ = true

unfoldable pub join_to_conference : ℕ → ℤ → Conference → Conference × Code
unfolding insert
join_to_conference now id f = if not (can_join f.state) then (f, Code.illegal_call_operation) else (
  record f {
    sub_ids = insert id f.sub_ids;
    state = ConferenceState.active;
    old_state = ConferenceState.active;
    begin_time = now;
  },
  Code.success,
)

-- The end of the conference: what is left is empty.
unfoldable pub reset_if_empty : Conference → Conference
reset_if_empty f =
    if is_empty f.sub_ids
    then record f {
      main_call_id = err_id;
      state = ConferenceState.idle;
      old_state = ConferenceState.idle;
      begin_time = 0;
    }
    else f

-- The host that leaves hands over to the lowest id that stays.
unfoldable pub leave_from_conference : ℤ → Conference → Conference × Code
unfolding contains erase reset_if_empty
leave_from_conference id f =
    let rest = erase id f.sub_ids in
    if contains id f.sub_ids
    then (
      reset_if_empty (record f {
        sub_ids = rest;
        main_call_id =
            if f.main_call_id == id then first_or f.main_call_id rest else f.main_call_id;
      }),
      Code.success,
    )
    else (f, Code.conference_seperate_failed)

-- The set of an id's conference is not empty, so the source's third test is never met; it is kept.
unfoldable pub hold_conference : ℤ → Conference → Conference × Code
unfolding contains reset_if_empty
hold_conference id f =
    if state_beq f.state ConferenceState.holding
    then (f, Code.success)
    else if not (contains id f.sub_ids)
    then (f, Code.conference_seperate_failed)
    else if is_empty f.sub_ids
    then (reset_if_empty f, Code.conference_seperate_failed)
    else (
      record f { state = ConferenceState.holding; old_state = ConferenceState.holding },
      Code.success,
    )

unfoldable pub can_combine_conference : Conference → Code
can_combine_conference f =
    if leb max_sub_call_limits (length f.sub_ids)
    then Code.conference_call_exceed_limit
    else Code.success

unfoldable pub can_separate_conference : Conference → Code
can_separate_conference f =
    if is_empty f.sub_ids
    then Code.conference_not_exists
    else if not (state_beq f.state ConferenceState.active)
    then Code.conference_call_is_not_active
    else Code.success

unfoldable pub can_kick_out_from_conference : Conference → Code
can_kick_out_from_conference f =
    if is_empty f.sub_ids then Code.conference_not_exists else Code.success

-- `CsConference` alone has it.
unfoldable pub update_conference_id : ℤ → Conference → Conference
unfolding contains insert
update_conference_id id f = record f {
  sub_ids = if contains id f.sub_ids then f.sub_ids else insert id f.sub_ids;
  main_call_id = if f.main_call_id == err_id then id else f.main_call_id;
}

-- How an id is written is the library's: `Str8ToStr16(std::to_string(id))`.
module _ {ℓ} {A : Type ℓ} (print : ℤ → A) where
  unfoldable pub get_sub_call_id_list : ℤ → Conference → List A × Code
  unfolding contains
  get_sub_call_id_list id f =
      if contains id f.sub_ids
      then (map print f.sub_ids, Code.success)
      else ([], Code.not_in_the_conference)

  unfoldable pub get_call_id_list_for_conference : ℤ → Conference → List A × Code
  unfolding contains
  get_call_id_list_for_conference id f =
      if contains id f.sub_ids || f.main_call_id == id
      then (map print f.sub_ids ++ (print f.main_call_id ∷ []), Code.success)
      else ([], Code.not_in_the_conference)

-- A call marks itself when its request to the conference succeeds.
abbrev marked : TelConferenceState → Call → Conference × Code → Conference × Call × Code
marked s c (f, r) = (f, (if is_success r then record c { conference_state = s } else c), r)

-- `CSCall::LaunchConference`.
unfoldable pub cs_launch_conference : ℕ → Call → Conference → Conference × Call × Code
unfolding join_to_conference set_conference_state
cs_launch_conference now c f =
    marked TelConferenceState.active c
      (join_to_conference now c.call_id (set_conference_state ConferenceState.idle f))

-- `IMSCall::LaunchConference`.
unfoldable pub ims_launch_conference : ℕ → Call → Conference → Conference × Call × Code
unfolding join_to_conference
ims_launch_conference now c f =
    marked TelConferenceState.active c (join_to_conference now c.call_id f)

unfoldable pub call_exit_conference : Call → Conference → Conference × Call × Code
unfolding leave_from_conference
call_exit_conference c f = marked TelConferenceState.idle c (leave_from_conference c.call_id f)

unfoldable pub call_hold_conference : Call → Conference → Conference × Call × Code
unfolding hold_conference
call_hold_conference c f = marked TelConferenceState.holding c (hold_conference c.call_id f)

unfoldable pub handle_combine_conference_fail_event : Conference → Conference
unfolding set_main_call set_conference_state
handle_combine_conference_fail_event f =
    set_conference_state f.old_state (set_main_call (first_or err_id f.sub_ids) f).0
