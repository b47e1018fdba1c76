-- ===== src/Requests/Entries.antt =====
-- The control manager's requests as runs of the table's steps: they touch no call but the one that is
-- answered.
use telephony_call_manager_m.Prelude.{
  ℕ, Bool, true, false, refl, List, [], ◌∷◌, inl, inr, Option-cases, if◌then◌else◌,
}
use telephony_call_manager_m.Prelude.Eq.{◌==◌}
use telephony_call_manager_m.Prelude.Int.{ℤ, int_eq}
use telephony_call_manager_m.Types.{Code, RunningState, is_success, running_eq}
use telephony_call_manager_m.CallTable.{id_of}
use telephony_call_manager_m.CallTable.Queries.{get_call_in}
use telephony_call_manager_m.CallTable.Reserve.{Inv}
use telephony_call_manager_m.CallTable.Runs.{start, followed_by, if_both}
use telephony_call_manager_m.Policy.{hang_up_policy}
use telephony_call_manager_m.Service.{World, Env, edit, notify_call_state_updated}
use telephony_call_manager_m.Service.Pending.{Task, has_pending_mo}
use telephony_call_manager_m.Reports.Keeps.{Keeps, edit-Keeps, emit-Keeps}
use telephony_call_manager_m.Requests.Control.{
  invalid_call_id, post_request, post_if, hang_up_later, hang_up_target, hang_up_call,
  get_ring_call, answer_call_at, answer_call, reject_call, end_first_in,
}
use telephony_call_manager_m.Policy.{Services, call_emergency}
use telephony_call_manager_m.Types.{Bytes}
use telephony_call_manager_m.Prelude.{not, ◌&&◌}
use telephony_call_manager_m.Utf.{str16_to_str8}
use telephony_call_manager_m.Number.{remove_separators_phone_number}
use telephony_call_manager_m.CallTable.Scans.{has_new_call}
use telephony_call_manager_m.Requests.Control.{number_legality_check}
use telephony_call_manager_m.Requests.Entry.{
  DialAsked, dial_number, dial_call, can_dial, package_dial_information, set_call_type_extras,
}
use telephony_call_manager_m.Requests.DialKeeps.{dial_request-Keeps}

abbrev FirstKeeps : World → World × Code → Type 0
FirstKeeps w x = Keeps w x.0

pub post_if-Keeps :
    (env : Env) (code : Code) (k : Task) (w : World)
    → Inv w.table
    → Keeps w (post_if env code k w).0
unfolding post_if post_request
post_if-Keeps env code k w v = if_both (FirstKeeps w) (is_success code) _ _ (start v) (start v)

pub hang_up_call-Keeps :
    (env : Env) (asked : ℤ) (w : World) → Inv w.table → Keeps w (hang_up_call env asked w).0
unfolding hang_up_call hang_up_later
hang_up_call-Keeps env asked w v =
    let id = hang_up_target asked w.table in
    if_both (FirstKeeps w) (id == invalid_call_id) (w, _) _ (start v)
      (if_both (FirstKeeps w) (is_success (hang_up_policy id w.table)) _ (w, _)
        (if_both (FirstKeeps w) (has_pending_mo id w.helper) _ _ (start v)
          (post_if-Keeps env Code.success (Task.hang_up_request id) w v))
        (start v))

answer_call_at-Keeps :
    (env : Env) (s : ℤ) (b : Bool) (p : ℕ) (w : World)
    → Inv w.table
    → Keeps w (answer_call_at env s b p w).0
unfolding answer_call_at notify_call_state_updated
answer_call_at-Keeps env s b p w v =
    let w1 = edit p (λ c. record c { is_answered = true }) w in
    let r1 = edit-Keeps p (λ c. record c { is_answered = true }) w refl refl v in
    let r2 = followed_by r1 (emit-Keeps _ w1) in followed_by r2 (post_if-Keeps env _ _ _)

pub answer_call-Keeps :
    (env : Env) (id s : ℤ) (b : Bool) (w : World)
    → Inv w.table
    → Keeps w (answer_call env id s b w).0
unfolding answer_call
answer_call-Keeps env id s b w v = elim (Option-cases (get_ring_call id w.table)) [
  | inl e ↦ rw (e, answer_call) (start v)
  | inr (p, e) ↦ rw (e, answer_call) (answer_call_at-Keeps env s b p w v)
]

pub reject_call-Keeps :
    (env : Env) (asked : ℤ) (b : Bool) (text : List ℕ) (w : World)
    → Inv w.table
    → Keeps w (reject_call env asked b text w).0
unfolding reject_call
reject_call-Keeps env asked b text w v =
    elim (Option-cases (get_call_in RunningState.ringing w.table)) [
      | inl e ↦ rw (e, reject_call) (start v)
      | inr (p, e) ↦ rw (e, reject_call) (post_if-Keeps env _ _ w v)
    ]

pub end_first_in-Keeps :
    (env : Env) (ss : List RunningState) (w : World)
    → Inv w.table
    → Keeps w (end_first_in env ss w).0
unfolding end_first_in
end_first_in-Keeps env [] w v = start v
end_first_in-Keeps env (s ∷ ss) w v = elim (Option-cases (get_call_in s w.table)) [
  | inl e ↦ rw (e, end_first_in) (end_first_in-Keeps env ss w v)
  | inr (p, e) ↦
      let id = id_of w.table p in
      rw (e, end_first_in)
        (if_both (FirstKeeps w) (id == invalid_call_id) _ _ (end_first_in-Keeps env ss w v) (
          if_both (FirstKeeps w) (s == RunningState.ringing) _ _
            (reject_call-Keeps env id false [] w v) (hang_up_call-Keeps env id w v)))
]

dial_number-Keeps :
    (env : Env) (sv : Services) (a : DialAsked) (number : Bytes) (w : World)
    → Inv w.table
    → Keeps w (dial_number env sv a number w).0
unfolding dial_number package_dial_information
dial_number-Keeps env sv a number w v =
    let x = a.extras in
    let is_ecc = env.is_emergency number x.account_id in
    let x1 = if is_ecc then (record x { dial_scene = call_emergency }) else x in
    let (x2, allowed) = can_dial sv x1 is_ecc w.table in
    let packed = package_dial_information a (set_call_type_extras sv x2) number is_ecc w in
    if_both (FirstKeeps w) (not (is_success allowed)) _ _ (start v) (
      if_both (FirstKeeps w) (not is_ecc && not (is_success (has_new_call w.table))) (w, _) _
        (start v) (dial_request-Keeps env packed v))

pub dial_call-Keeps :
    (env : Env) (sv : Services) (a : DialAsked) (w : World)
    → Inv w.table
    → Keeps w (dial_call env sv a w).0
unfolding dial_call
dial_call-Keeps env sv a w v =
    let (number, legal) = number_legality_check (str16_to_str8 a.number) in
    if_both (FirstKeeps w) (is_success legal) _ (w, legal)
      (dial_number-Keeps env sv a (remove_separators_phone_number number) w v) (start v)
