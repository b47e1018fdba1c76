-- ===== src/Reports/IncomingKeeps.antt =====
-- An incoming call's report as a run of the table's steps.
use telephony_call_manager_m.Prelude.{
  ℕ, refl, subst, Bool, true, Option, none, some, arith, inl, inr, Option-cases,
}
use telephony_call_manager_m.Prelude.Int.{int_eq}
use telephony_call_manager_m.Prelude.Search.{Holds}
use telephony_call_manager_m.Types.{TelCallState, CallDirection, Code}
use telephony_call_manager_m.Call.{set_tel_call_state, incoming_call_base}
use telephony_call_manager_m.Call.Report.{set_tel_call_state-SameIdentity}
use telephony_call_manager_m.CallTable.{CallTable, add_one_call_object}
use telephony_call_manager_m.CallTable.Reserve.{Inv}
use telephony_call_manager_m.CallTable.Reach.{Step}
use telephony_call_manager_m.CallTable.Runs.{start, step, followed_by, if_both}
use telephony_call_manager_m.CallTable.Queries.{get_one_call_object_by_index}
use telephony_call_manager_m.Status.{CallDetailInfo, create_new_call}
use telephony_call_manager_m.Status.Runs.{IsNew, create_new_call-IsNew}
use telephony_call_manager_m.Service.{World, Env, edit, notify_new_call_created}
use telephony_call_manager_m.Carrier.{call_at}
use telephony_call_manager_m.Reports.Calls.{update_call_state, refresh}
use telephony_call_manager_m.Reports.Dialing.{init_index, find_reported}
use telephony_call_manager_m.Reports.Disconnect.{deal_fail_dial}
use telephony_call_manager_m.Reports.Handle.{
  filter_results_dispose, finalize_incoming_state, handle_reject_call, refresh_old_call,
  add_incoming_call, incoming_handle,
}
use telephony_call_manager_m.Reports.Keeps.{
  Keeps, edit-Keeps, emit-Keeps, carrier_hang_up_call-Keeps, carrier_reject_call-Keeps,
  update_call_state-Keeps, refresh-Keeps, find_reported-lt,
}
use telephony_call_manager_m.Reports.DisconnectKeeps.{HandlerKeeps, deal_fail_dial-Keeps}

notify_new_call_created-Keeps :
    (p : ℕ) (w : World) → Inv w.table → Keeps w (notify_new_call_created p w)
unfolding notify_new_call_created
notify_new_call_created-Keeps p w v = emit-Keeps _ w v

filter_results_dispose-Keeps :
    (env : Env) (p : ℕ) (w : World) → Inv w.table → Keeps w (filter_results_dispose env p w).0
unfolding filter_results_dispose
filter_results_dispose-Keeps env p w v =
    let w1 = edit p (λ c. record c { is_ap_cause_reported = true }) w in
    let w2 = edit p (λ c. (incoming_call_base c).0) w in
    let r1 = edit-Keeps p (λ c. record c { is_ap_cause_reported = true }) w refl refl v in
    let r2 : Keeps w w2 =
      edit-Keeps p (λ c. (incoming_call_base c).0) w (unfold incoming_call_base in refl)
        (unfold incoming_call_base in refl) v in
    if_both (λ (x : World × Code). Keeps w x.0) _ _ (notify_new_call_created p w2, Code.success)
      (followed_by r1 (carrier_hang_up_call-Keeps env p w1))
      (followed_by r2 (notify_new_call_created-Keeps p w2))

finalize_incoming_state-Keeps :
    (env : Env) (p : ℕ) (next : TelCallState) (w : World)
    → Inv w.table
    → Keeps w (finalize_incoming_state env p next w).0
unfolding finalize_incoming_state
finalize_incoming_state-Keeps env p next w v =
    let w1 = (update_call_state env p next w).0 in
    let r = update_call_state-Keeps env p next w v in
    if_both (λ (x : World × Code). Keeps w x.0) _ (filter_results_dispose env p w1) _
      (followed_by r (filter_results_dispose-Keeps env p w1)) r

handle_reject_call-Keeps :
    (env : Env) (p : ℕ) (w : World) → Inv w.table → Keeps w (handle_reject_call env p w).0
unfolding handle_reject_call
handle_reject_call-Keeps env p w v =
    let kept = set_tel_call_state-SameIdentity env.now TelCallState.incoming (call_at p w) in
    let w1 = edit p (λ c. (set_tel_call_state env.now TelCallState.incoming c).0) w in
    followed_by (edit-Keeps p _ w kept.same_id kept.same_ecc v) (carrier_reject_call-Keeps env p w1)

-- The failed dial is reported first.
fail_initial-Keeps :
    (env : Env) (o : Option ℕ) (w : World)
    → Inv w.table
    → Keeps w (elim o [ none ↦ w | some p ↦ (deal_fail_dial env p w).0 ])
fail_initial-Keeps env none w v = start v
fail_initial-Keeps env (some p) w v = deal_fail_dial-Keeps env p w v

refresh_old_call-Keeps :
    (env : Env) (info : CallDetailInfo) (w : World)
    → Inv w.table
    → Keeps w (refresh_old_call env info w).0
unfolding refresh_old_call
refresh_old_call-Keeps env info w v = elim (Option-cases (find_reported info w1.table)) [
  | inl e ↦ rw (e, refresh_old_call) r1
  | inr (p, e) ↦
      let r2 = refresh-Keeps env info p w1 r1.inv (find_reported-lt info w1.table p r1.inv e) in
      let w2 = (refresh env info p w1).0 in
      let q = (refresh env info p w1).1 in
      let r3 = followed_by r1 (λ i. r2.0) in
      rw (e, refresh_old_call)
        (if_both (λ (x : World × Bool × Code). Keeps w x.0) _ _ _
          (followed_by r3 (update_call_state-Keeps env q info.state w2))
          (if_both (λ (x : World × Bool × Code). Keeps w x.0) _ (w2, true, Code.success)
            (w1, true, Code.success) r3 r1))
]
  where
    w1 : World
    w1 = elim (get_one_call_object_by_index init_index w.table) [
      | none ↦ w
      | some p ↦ (deal_fail_dial env p w).0
    ]

    r1 : Keeps w w1
    r1 = fail_initial-Keeps env (get_one_call_object_by_index init_index w.table) w v

add_incoming_call-Keeps :
    (env : Env) (info : CallDetailInfo) (w : World)
    → Inv w.table
    → Keeps w (add_incoming_call env info w).0
unfolding add_incoming_call
add_incoming_call-Keeps env info w v =
    elim (Option-cases
      (create_new_call env.now w.last_dial info CallDirection.direction_in w.table).1) [
        | inl e ↦ rw (e, add_incoming_call) new.runs
        | inr (p, e) ↦
            let (at, grown) = subst (Holds _) e new.at_next in
            let w1 = record w { table = (add_one_call_object (some p) t).0 } in
            let w2 = notify_new_call_created p w1 in
            let added : Keeps w w1 = step new.runs (Step.adds p (omega (arith, at, grown))) in
            let told = followed_by added (notify_new_call_created-Keeps p w1) in
            rw (e, add_incoming_call)
              (if_both (λ (x : World × Code). Keeps w x.0) _ _ _
                (followed_by told (finalize_incoming_state-Keeps env p info.state w2))
                (followed_by added (handle_reject_call-Keeps env p w1)))
      ]
  where
    t : CallTable
    t = (create_new_call env.now w.last_dial info CallDirection.direction_in w.table).0

    new :
        IsNew w.table t
          (create_new_call env.now w.last_dial info CallDirection.direction_in w.table).1
    new = create_new_call-IsNew env.now w.last_dial info CallDirection.direction_in w.table v

pub incoming_handle-Keeps : (env : Env) → HandlerKeeps (incoming_handle env)
unfolding incoming_handle
incoming_handle-Keeps env info w v =
    let w1 = (refresh_old_call env info w).0 in
    let r = refresh_old_call-Keeps env info w v in
    if_both (λ (x : World × Code). Keeps w x.0) _ (w1, _) _ r
      (if_both (λ (x : World × Code). Keeps w x.0) _ (add_incoming_call env info w1) (w1, _)
        (followed_by r (add_incoming_call-Keeps env info w1)) r)
