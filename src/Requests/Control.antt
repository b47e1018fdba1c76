-- ===== src/Requests/Control.antt =====
-- services/call/src/mini/call_control_manager.cpp: the requests before they are posted to the main loop. The
-- request handler is there from `Init` on; memory does not run out.
use telephony_call_manager_m.Prelude.{
  ℕ, Bool, true, false, List, [], ◌∷◌, Option, none, some, if◌then◌else◌, leb, length,
}
use telephony_call_manager_m.Prelude.Eq.{◌==◌, nat_eq}
use telephony_call_manager_m.Prelude.Int.{ℤ, pos, int_eq}
use telephony_call_manager_m.Types.{TelCallState, RunningState, Bytes, Code, is_success, running_eq}
use telephony_call_manager_m.Utf.{str16_to_str8}
use telephony_call_manager_m.CallTable.{CallTable, id_of}
use telephony_call_manager_m.CallTable.Queries.{get_one_call_object, get_call_in}
use telephony_call_manager_m.CallTable.Scans.{has_cellular_call_exist, has_ringing_call}
use telephony_call_manager_m.Policy.{
  answer_call_policy, reject_call_policy, hang_up_policy, hold_call_policy, un_hold_call_policy,
  switch_call_policy,
}
use telephony_call_manager_m.EventLoop.{post_async_task}
use telephony_call_manager_m.Service.{World, Env, edit, notify_call_state_updated}
use telephony_call_manager_m.Service.Pending.{
  Task, has_pending_mo, set_pending_mo, set_pending_hangup, no_call,
  post_pending_hangup_protect_task,
}

-- `INVALID_CALLID`.
abbrev pub invalid_call_id : ℤ
invalid_call_id = pos 0

-- The latest call in the first of the states that has one.
unfoldable pub first_in : List RunningState → CallTable → Option ℕ
first_in [] t = none
first_in (s ∷ ss) t =
    let rest = first_in ss t in elim (get_call_in s t) [ some p ↦ some p | none ↦ rest ]

abbrev pub hang_up_order : List RunningState
hang_up_order =
    RunningState.active ∷ RunningState.dialing ∷ RunningState.connecting ∷ RunningState.hold ∷ []

abbrev pub end_call_order : List RunningState
end_call_order =
    RunningState.active ∷ RunningState.ringing ∷ RunningState.dialing ∷ RunningState.connecting
    ∷ RunningState.hold ∷ []

-- The id that a hang-up is about: the caller's, or that of the first call in the order.
unfoldable pub hang_up_target : ℤ → CallTable → ℤ
unfolding first_in
hang_up_target id t =
    if id == invalid_call_id
    then elim (first_in hang_up_order t) [ none ↦ invalid_call_id | some p ↦ id_of t p ]
    else id

-- `NumberLegalityCheck`: the number up to the first comma.
abbrev pub comma : ℕ
comma = 44

unfoldable pub before_comma : Bytes → Bytes
before_comma [] = []
before_comma (c ∷ s) = if c == comma then [] else c ∷ before_comma s

unfoldable pub number_legality_check : Bytes → Bytes × Code
unfolding before_comma
number_legality_check [] = ([], Code.phone_number_empty)
number_legality_check (c ∷ s) =
    if leb (length (c ∷ s)) 255
    then (before_comma (c ∷ s), Code.success)
    else (c ∷ s, Code.number_out_of_range)

-- `CallStateToApp`.
pub data CallStateToApp : Type 0 where
  idle offhook ringing : CallStateToApp

unfoldable pub get_call_state_to_app : CallTable → CallStateToApp
get_call_state_to_app t =
    if has_cellular_call_exist t
    then if has_ringing_call t then CallStateToApp.ringing else CallStateToApp.offhook
    else CallStateToApp.idle

-- The call that rings, or the caller's if one rings at all.
unfoldable pub get_ring_call : ℤ → CallTable → Option ℕ
get_ring_call id t = elim (get_call_in RunningState.ringing t) [
  | none ↦ none
  | some p ↦ get_one_call_object (if id == invalid_call_id then id_of t p else id) t
]

module _ (env : Env) where
  -- `CallRequestHandler` posts without delay.
  unfoldable pub post_request : Task → World → World × Code
  post_request k w =
      let (l, id, code) = post_async_task env.freq env.tick 0 (env.ms_to_ticks 0) k w.loop in
      (record w { loop = l }, code)

  unfoldable pub post_if : Code → Task → World → World × Code
  unfolding post_request
  post_if allowed k w = if is_success allowed then post_request k w else (w, allowed)

  -- A call that was dialed and that the network has not named yet is hung up when it is named.
  unfoldable pub hang_up_later : ℤ → World → World × Code
  hang_up_later id w =
      let h = set_pending_hangup true id (set_pending_mo false no_call w.helper) in
      let (h1, l1) =
        post_pending_hangup_protect_task env.freq env.tick env.ms_to_ticks id h w.loop in
      (record w { helper = h1; loop = l1 }, Code.success)

  unfoldable pub hang_up_call : ℤ → World → World × Code
  unfolding hang_up_target hang_up_later post_if
  hang_up_call asked w =
      let id = hang_up_target asked w.table in
      if id == invalid_call_id
      then (w, Code.argument_invalid)
      else if is_success (hang_up_policy id w.table)
      then if has_pending_mo id w.helper
        then hang_up_later id w
        else post_if Code.success (Task.hang_up_request id) w
      else (w, hang_up_policy id w.table)

  unfoldable pub answer_call_at : ℤ → Bool → ℕ → World → World × Code
  unfolding edit post_if
  answer_call_at video_state is_rtt p w =
      let w1 = edit p (λ c. record c { is_answered = true }) w in
      let w2 = (notify_call_state_updated p TelCallState.incoming TelCallState.answered w1).0 in
      let id = id_of w2.table p in
      post_if (answer_call_policy id video_state w2.table)
        (Task.answer_request id video_state is_rtt) w2

  unfoldable pub answer_call : ℤ → ℤ → Bool → World → World × Code
  unfolding get_ring_call answer_call_at
  answer_call id video_state is_rtt w = elim (get_ring_call id w.table) [
    | none ↦ (w, Code.local_ptr_null)
    | some p ↦ answer_call_at video_state is_rtt p w
  ]

  unfoldable pub reject_call : ℤ → Bool → List ℕ → World → World × Code
  unfolding post_if
  reject_call asked with_message text w = elim (get_call_in RunningState.ringing w.table) [
    | none ↦ (w, Code.local_ptr_null)
    | some p ↦
        let id = if asked == invalid_call_id then id_of w.table p else asked in
        post_if (reject_call_policy id w.table)
          (Task.reject_request id with_message (str16_to_str8 text)) w
  ]

  unfoldable pub hold_call : ℤ → World → World × Code
  unfolding post_if
  hold_call id w = post_if (hold_call_policy id w.table) (Task.hold_request id) w

  unfoldable pub un_hold_call : ℤ → World → World × Code
  unfolding post_if
  un_hold_call id w = post_if (un_hold_call_policy id w.table) (Task.un_hold_request id) w

  unfoldable pub switch_call : ℤ → World → World × Code
  unfolding post_if
  switch_call id w = post_if (switch_call_policy id w.table) (Task.switch_request id) w

  -- The first call, in the order of its states, is rejected while it rings and hung up otherwise. A call
  -- with the invalid id is passed over.
  unfoldable pub end_first_in : List RunningState → World → World × Code
  unfolding hang_up_call reject_call
  end_first_in [] w = (w, Code.success)
  end_first_in (s ∷ ss) w =
      let rest = end_first_in ss w in
      elim (get_call_in s w.table) [
        | none ↦ rest
        | some p ↦
            let id = id_of w.table p in
            if id == invalid_call_id
            then rest
            else if s == RunningState.ringing
            then reject_call id false [] w
            else hang_up_call id w
      ]

  unfoldable pub end_call : World → World × Bool
  unfolding end_first_in
  end_call w = let (w1, code) = end_first_in end_call_order w in (w1, is_success code)
