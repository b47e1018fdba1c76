-- ===== src/Conference/Tests.antt =====
-- One CS call in a conference, as `RefreshCall` puts it there.
use telephony_call_manager_m.Prelude.{◌≡◌, ◌≢◌, true, false, [], ◌∷◌, ◌++◌, map}
use telephony_call_manager_m.Prelude.Int.{pos}
use telephony_call_manager_m.Prelude.IdSet.{contains}
use telephony_call_manager_m.Types.{Code}
use telephony_call_manager_m.Samples.{new_cs_call}
use telephony_call_manager_m.Conference.{
  Conference, ConferenceState, new_conference, update_conference_id, set_conference_state,
  cs_launch_conference, ims_launch_conference, call_exit_conference, call_hold_conference,
  get_sub_call_id_list, get_call_id_list_for_conference,
}
use telephony_call_manager_m.Conference.Members.{host_is_listed}
use telephony_call_manager_m.Conference.Runs.{
  CsReach, CsStep, CsInv, ImsReach, CsReach-CsInv, cs_launch_conference_lem, ims_conference_refuses,
}

abbrev with_one : Conference
with_one = update_conference_id (pos 1) new_conference

with_one-CsReach : CsReach with_one
with_one-CsReach = CsReach.after CsReach.start (CsStep.updates (pos 1))

CsReach-CsInv_example : CsInv with_one
CsReach-CsInv_example = CsReach-CsInv with_one with_one-CsReach

cs_launch_conference_example : cs_launch_conference 9 (new_cs_call (pos 2) false) with_one ≡ (
  set_conference_state ConferenceState.idle with_one,
  new_cs_call (pos 2) false,
  Code.illegal_call_operation,
)
cs_launch_conference_example = cs_launch_conference_lem 9 (new_cs_call (pos 2) false) with_one

ims_conference_refuses_example :
    let c = new_cs_call (pos 2) false in
    (new_conference ≡ new_conference)
    × (ims_launch_conference 9 c new_conference ≡ (new_conference, c, Code.illegal_call_operation))
    × (call_exit_conference c new_conference ≡ (new_conference, c, Code.conference_seperate_failed))
    × (call_hold_conference c new_conference ≡ (new_conference, c, Code.conference_seperate_failed))
ims_conference_refuses_example =
    ims_conference_refuses new_conference 9 (new_cs_call (pos 2) false) ImsReach.start

with_one-member : with_one.sub_ids ≢ []
unfolding update_conference_id new_conference
with_one-member e = cc e

host_is_listed_example :
    (contains with_one.main_call_id with_one.sub_ids ≡ true)
    × (get_sub_call_id_list (λ id. id) with_one.main_call_id with_one
        ≡ (map (λ id. id) with_one.sub_ids, Code.success))
    × (get_call_id_list_for_conference (λ id. id) with_one.main_call_id with_one
        ≡ (map (λ id. id) with_one.sub_ids ++ (with_one.main_call_id ∷ []), Code.success))
host_is_listed_example = host_is_listed (λ id. id) with_one with_one-CsReach with_one-member
