-- ===== src/Reports/Keeps.antt =====
-- What the handlers share, as runs of the table's steps.
use telephony_call_manager_m.Prelude.{ℕ, ◌<◌, ◌≡◌, refl, subst, some, List, [], ◌∷◌}
use telephony_call_manager_m.Prelude.Int.{ℤ, int_eq}
use telephony_call_manager_m.Prelude.Search.{Holds}
use telephony_call_manager_m.Types.{TelCallState, TelConferenceState, Code, CallClass, Bytes}
use telephony_call_manager_m.Call.{Call, dial_call_base, reject_call_base}
use telephony_call_manager_m.CallTable.{CallTable}
use telephony_call_manager_m.CallTable.Reserve.{Inv}
use telephony_call_manager_m.CallTable.Reach.{Step}
use telephony_call_manager_m.CallTable.Runs.{Runs, start, step, followed_by, if_both, All-find_if}
use telephony_call_manager_m.CallTable.Queries.{
  get_one_call_object_by_index, get_one_call_object_by_index_slot_id_and_call_type,
}
use telephony_call_manager_m.Conference.{Conference}
use telephony_call_manager_m.Status.{CallDetailInfo}
use telephony_call_manager_m.Status.Runs.{refresh_call_if_necessary-Replaced}
use telephony_call_manager_m.Service.{
  World, Env, Event, Request, send, edit, emit, notify_call_state_updated,
}
use telephony_call_manager_m.Carrier.{
  call_at, carrier_hang_up_call, carrier_un_hold_call, carrier_reject_call, carrier_dialing_process,
  send_or,
}
use telephony_call_manager_m.Reports.Calls.{
  update_call_state, clear_pending_state, clear_pending_mo, clear_pending_hangup, refresh,
  exit_conference, hold_conference_at, launch_conference, set_original_call_type_for_active_state,
  set_original_call_type_for_disconnect_state, set_conference_call, refresh_call_disconnect_reason,
  with_conference,
}
use telephony_call_manager_m.Reports.Dialing.{find_reported}

abbrev pub Keeps : World → World → Type 0
Keeps w u = Runs w.table u.table

pub send-Keeps : (env : Env) (r : Request) (w : World) → Inv w.table → Keeps w (send env r w).0
unfolding send
send-Keeps env r w v =
    if_both (λ (x : World × Code). Keeps w x.0) (env.registered w.log) _ _ (start v) (start v)

pub emit-Keeps : (e : Event) (w : World) → Inv w.table → Keeps w (emit e w)
unfolding emit
emit-Keeps e w v = if_both (Keeps w) w.listening _ _ (start v) (start v)

pub edit-Keeps :
    (p : ℕ) (f : Call → Call) (w : World)
    → (f (call_at p w)).call_id ≡ (call_at p w).call_id
    → (f (call_at p w)).is_ecc ≡ (call_at p w).is_ecc
    → Inv w.table
    → Keeps w (edit p f w)
unfolding edit
edit-Keeps p f w same_id same_ecc v = step (start v) (Step.edits p f same_id same_ecc)

pub carrier_hang_up_call-Keeps :
    (env : Env) (p : ℕ) (w : World) → Inv w.table → Keeps w (carrier_hang_up_call env p w).0
unfolding carrier_hang_up_call send_or
carrier_hang_up_call-Keeps env p w v = send-Keeps env _ w v

pub carrier_un_hold_call-Keeps :
    (env : Env) (p : ℕ) (w : World) → Inv w.table → Keeps w (carrier_un_hold_call env p w).0
unfolding carrier_un_hold_call send_or
carrier_un_hold_call-Keeps env p w v = send-Keeps env _ w v

pub carrier_reject_call-Keeps :
    (env : Env) (p : ℕ) (w : World) → Inv w.table → Keeps w (carrier_reject_call env p w).0
unfolding carrier_reject_call send_or reject_call_base
carrier_reject_call-Keeps env p w v =
    let w1 = edit p (λ _. (reject_call_base (call_at p w)).0) w in
    followed_by (edit-Keeps p (λ _. (reject_call_base (call_at p w)).0) w refl refl v)
      (λ i. send-Keeps env _ w1 i)

pub carrier_dialing_process-Keeps :
    (env : Env) (p : ℕ) (w : World) → Inv w.table → Keeps w (carrier_dialing_process env p w).0
unfolding carrier_dialing_process dial_call_base
carrier_dialing_process-Keeps env p w v = edit-Keeps p _ w refl refl v

pub update_call_state-Keeps :
    (env : Env) (p : ℕ) (next : TelCallState) (w : World)
    → Inv w.table
    → Keeps w (update_call_state env p next w).0
unfolding update_call_state edit notify_call_state_updated
update_call_state-Keeps env p next w v =
    let set = step (step (start v) (Step.reports p env.now next)) (Step.updates env.now _ next) in
    if_both (λ (x : World × Code). Keeps w x.0) _ _ _ (followed_by set (emit-Keeps _ _)) set

pub clear_pending_mo-Keeps : (id : ℤ) (w : World) → Inv w.table → Keeps w (clear_pending_mo id w)
unfolding clear_pending_mo
clear_pending_mo-Keeps id w v = if_both (Keeps w) _ _ _ (start v) (start v)

pub clear_pending_state-Keeps :
    (env : Env) (p : ℕ) (w : World) → Inv w.table → Keeps w (clear_pending_state env p w)
unfolding clear_pending_state clear_pending_hangup
clear_pending_state-Keeps env p w v =
    let id = (call_at p w).call_id in
    let w1 = clear_pending_mo id w in
    let w2 = (carrier_hang_up_call env p w1).0 in
    followed_by (clear_pending_mo-Keeps id w v) (λ i.
      if_both (Keeps w1) _ _ w1
        (if_both (Keeps w1) _ w1 w2 (start i) (carrier_hang_up_call-Keeps env p w1 i)) (start i))

with_conference-table :
    (k : CallClass) (f : Conference) (w : World) → (with_conference k f w).table ≡ w.table
with_conference-table CallClass.cs_call f w = refl
with_conference-table CallClass.ims_call f w = refl

conference-Keeps :
    (k : CallClass) (f : Conference) (p : ℕ) (s : TelConferenceState) (w : World)
    → Inv w.table
    → Keeps w (edit p (λ d. record d { conference_state = s }) (with_conference k f w))
conference-Keeps CallClass.cs_call f p s w v =
    edit-Keeps p (λ d. record d { conference_state = s }) (record w { cs_conference = f }) refl refl
      v
conference-Keeps CallClass.ims_call f p s w v =
    edit-Keeps p (λ d. record d { conference_state = s }) (record w { ims_conference = f }) refl
      refl v

pub exit_conference-Keeps : (p : ℕ) (w : World) → Inv w.table → Keeps w (exit_conference p w)
unfolding exit_conference
exit_conference-Keeps p w v = unfold edit in conference-Keeps (call_at p w).call_class _ p _ w v

pub hold_conference_at-Keeps : (p : ℕ) (w : World) → Inv w.table → Keeps w (hold_conference_at p w)
unfolding hold_conference_at
hold_conference_at-Keeps p w v = unfold edit in conference-Keeps (call_at p w).call_class _ p _ w v

pub launch_conference-Keeps :
    (now p : ℕ) (w : World) → Inv w.table → Keeps w (launch_conference now p w)
unfolding launch_conference
launch_conference-Keeps now p w v =
    unfold edit in conference-Keeps (call_at p w).call_class _ p _ w v

pub set_conference_call-Keeps :
    (env : Env) (ps : List ℕ) (w : World) → Inv w.table → Keeps w (set_conference_call env ps w)
unfolding set_conference_call
set_conference_call-Keeps env [] w v = start v
set_conference_call-Keeps env (p ∷ ps) w v =
    let w1 = edit p (λ c. record c { conference_state = TelConferenceState.idle }) w in
    let w2 = launch_conference env.now.first p w1 in
    let w3 = (update_call_state env p (call_at p w2).call_state w2).0 in
    let r1 =
      edit-Keeps p (λ c. record c { conference_state = TelConferenceState.idle }) w refl refl v in
    let r2 = followed_by r1 (launch_conference-Keeps env.now.first p w1) in
    let r3 = followed_by r2 (update_call_state-Keeps env p (call_at p w2).call_state w2) in
    followed_by r3 (set_conference_call-Keeps env ps w3)

pub set_original_call_type_for_active_state-Keeps :
    (p : ℕ) (w : World) → Inv w.table → Keeps w (set_original_call_type_for_active_state p w)
unfolding set_original_call_type_for_active_state
set_original_call_type_for_active_state-Keeps p w v =
    unfold edit in step (start v) (Step.edits p _ refl refl)

pub set_original_call_type_for_disconnect_state-Keeps :
    (p : ℕ) (w : World) → Inv w.table → Keeps w (set_original_call_type_for_disconnect_state p w)
unfolding set_original_call_type_for_disconnect_state
set_original_call_type_for_disconnect_state-Keeps p w v =
    unfold edit in step (start v) (Step.edits p _ refl refl)

pub refresh_call_disconnect_reason-Keeps :
    (p : ℕ) (reason : ℤ) (message : Bytes) (w : World)
    → Inv w.table
    → Keeps w (refresh_call_disconnect_reason p reason message w)
unfolding refresh_call_disconnect_reason
refresh_call_disconnect_reason-Keeps p reason message w v =
    if_both (Keeps w) _ _ w (unfold edit in step (start v) (Step.edits p _ refl refl)) (start v)

-- With the address of the call afterwards, which is in use.
abbrev pub KeepsAt : World → World × ℕ → Type 0
KeepsAt w (u, p) = Keeps w u × (p < u.table.next)

pub refresh-Keeps :
    (env : Env) (info : CallDetailInfo) (p : ℕ) (w : World)
    → Inv w.table
    → p < w.table.next
    → KeepsAt w (refresh env info p w)
unfolding refresh
refresh-Keeps env info p w v lt =
    refresh_call_if_necessary-Replaced env.now w.last_dial info p w.table w.cs_conference v lt

-- An address that a question finds is in use.
pub find_reported-lt :
    (info : CallDetailInfo) (t : CallTable) (p : ℕ)
    → Inv t
    → find_reported info t ≡ some p
    → p < t.next
unfolding find_reported get_one_call_object_by_index_slot_id_and_call_type
find_reported-lt info t p v e =
    subst (Holds _) e (All-find_if (λ p. p < t.next) _ t.calls v.allocated)

pub get_one_call_object_by_index-lt :
    (index : ℤ) (t : CallTable) (p : ℕ)
    → Inv t
    → get_one_call_object_by_index index t ≡ some p
    → p < t.next
unfolding get_one_call_object_by_index
get_one_call_object_by_index-lt index t p v e =
    subst (Holds _) e (All-find_if (λ p. p < t.next) _ t.calls v.allocated)
