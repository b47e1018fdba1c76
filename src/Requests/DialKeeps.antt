-- ===== src/Requests/DialKeeps.antt =====
-- The dial as a run of the table's steps.
use telephony_call_manager_m.Prelude.{
  ℕ, List, [], ◌∷◌, not, ◌||◌, if◌then◌else◌, inl, inr, Option-cases, leb, length,
}
use telephony_call_manager_m.Prelude.Eq.{◌==◌}
use telephony_call_manager_m.Prelude.Int.{int_eq}
use telephony_call_manager_m.Policy.{dial_carrier_type, dial_voice_mail_type}
use telephony_call_manager_m.Types.{Bytes, Code}
use telephony_call_manager_m.Call.{DialParaInfo}
use telephony_call_manager_m.Number.{remove_separators_phone_number}
use telephony_call_manager_m.CallTable.Reserve.{Inv}
use telephony_call_manager_m.CallTable.Reach.{Step}
use telephony_call_manager_m.CallTable.Runs.{start, step, followed_by, if_both}
use telephony_call_manager_m.CallTable.Scans.{get_carrier_call_list}
use telephony_call_manager_m.Service.{World, Env, Request, send}
use telephony_call_manager_m.Carrier.{carrier_hang_up_call, carrier_reject_call}
use telephony_call_manager_m.Reports.Dialing.{end_dialing}
use telephony_call_manager_m.Reports.Keeps.{
  Keeps, send-Keeps, carrier_reject_call-Keeps, carrier_hang_up_call-Keeps,
}
use telephony_call_manager_m.Reports.DisconnectKeeps.{deal_fail_dial-Keeps}
use telephony_call_manager_m.Reports.HandleKeeps.{handle_call_report_info-Keeps}
use telephony_call_manager_m.Requests.Dial.{
  hang_up_all, reject_all, ecc_lists, ecc_dial_policy, handle_dialing_info, update_call_report_info,
  handle_dial_fail, handle_start_dial, fail_dialing, begin_dialing, forget_first_dial,
  carrier_dial_process, dial_request, wait_no_more, get_dialing_call, pack_dial,
}

hang_up_all-Keeps :
    (env : Env) (ps : List ℕ) (w : World) → Inv w.table → Keeps w (hang_up_all env ps w)
unfolding hang_up_all
hang_up_all-Keeps env [] w v = start v
hang_up_all-Keeps env (p ∷ ps) w v =
    followed_by (carrier_hang_up_call-Keeps env p w v)
      (hang_up_all-Keeps env ps (carrier_hang_up_call env p w).0)

reject_all-Keeps :
    (env : Env) (ps : List ℕ) (w : World) → Inv w.table → Keeps w (reject_all env ps w)
unfolding reject_all
reject_all-Keeps env [] w v = start v
reject_all-Keeps env (p ∷ ps) w v =
    followed_by (carrier_reject_call-Keeps env p w v)
      (reject_all-Keeps env ps (carrier_reject_call env p w).0)

ecc_dial_policy-Keeps : (env : Env) (w : World) → Inv w.table → Keeps w (ecc_dial_policy env w).0
unfolding ecc_dial_policy
ecc_dial_policy-Keeps env w v =
    elim (Option-cases (ecc_lists w.table (get_carrier_call_list w.table))) [
      | inl e ↦ rw (e, ecc_dial_policy) (start v)
      | inr ((hs, rs), e) ↦
          rw (e, ecc_dial_policy)
            (followed_by (hang_up_all-Keeps env hs w v)
              (reject_all-Keeps env rs (hang_up_all env hs w)))
    ]

handle_dialing_info-Keeps :
    (env : Env) (number : Bytes) (info : DialParaInfo) (w : World)
    → Inv w.table
    → Keeps w (handle_dialing_info env number info w).0
unfolding handle_dialing_info
handle_dialing_info-Keeps env number info w v =
    if_both (λ (x : World × Code). Keeps w x.0) _ _ _ (ecc_dial_policy-Keeps env w v)
      (if_both (λ (x : World × Code). Keeps w x.0) _ (w, Code.success) (w, _) (start v) (start v))

update_call_report_info-Keeps :
    (env : Env) (info : DialParaInfo) (number : Bytes) (w : World)
    → Inv w.table
    → Keeps w (update_call_report_info env info number w).0
unfolding update_call_report_info
update_call_report_info-Keeps env info number w v =
    if_both (λ (x : World × Code). Keeps w x.0) _ _ (w, _) (handle_call_report_info-Keeps env _ w v)
      (start v)

handle_dial_fail-Keeps : (env : Env) (w : World) → Inv w.table → Keeps w (handle_dial_fail env w).0
unfolding handle_dial_fail
handle_dial_fail-Keeps env w v = elim (Option-cases (get_dialing_call w.table)) [
  | inl e ↦ rw (e, handle_dial_fail) (start v)
  | inr (p, e) ↦ rw (e, handle_dial_fail) (deal_fail_dial-Keeps env p w v)
]

handle_start_dial-Keeps :
    (env : Env) (info : DialParaInfo) (w : World)
    → Inv w.table
    → Keeps w (handle_start_dial env info w).0
unfolding handle_start_dial
handle_start_dial-Keeps env info w v =
    let r = Request.dial (pack_dial w.last_is_rtt info) in
    let w1 = (send env r w).0 in
    let r1 = send-Keeps env r w v in
    let r2 = followed_by r1 (handle_dial_fail-Keeps env w1) in
    if_both (λ (x : World × Code). Keeps w x.0) _ (wait_no_more w, _) _
      (step (start v) Step.waits_no_more)
      (if_both (λ (x : World × Code). Keeps w x.0) _ (record w { dial_call_info = _ }, _) _
        (start v) (if_both (λ (x : World × Code). Keeps w x.0) _ (w1, _) _ r1 r2))

fail_dialing-Keeps :
    (env : Env) (w u : World) (code : Code) → Keeps w u → Keeps w (fail_dialing env (u, code)).0
unfolding fail_dialing end_dialing
fail_dialing-Keeps env w u code r = step r Step.waits_no_more

carrier_dial_process-Keeps :
    (env : Env) (info : DialParaInfo) (w : World)
    → Inv w.table
    → Keeps w (carrier_dial_process env info w).0
unfolding carrier_dial_process
carrier_dial_process-Keeps env info w v =
    let number = remove_separators_phone_number info.number in
    let w0 = begin_dialing env w in
    let r0 : Keeps w w0 = unfold begin_dialing in start v in
    let (w1, allowed) = handle_dialing_info env number info w0 in
    let r1 = followed_by r0 (handle_dialing_info-Keeps env number info w0) in
    let wf = forget_first_dial env w1 in
    let rf : Keeps w wf = unfold forget_first_dial in step r1 Step.forgets_first_dial in
    let (w2, reported) = update_call_report_info env info number wf in
    let r2 = followed_by rf (update_call_report_info-Keeps env info number wf) in
    if_both (λ (x : World × Code). Keeps w x.0) _ (w, _) _ (start v)
      (if_both (λ (x : World × Code). Keeps w x.0) _ (fail_dialing env (w1, allowed)) _
        (fail_dialing-Keeps env w w1 allowed r1)
        (if_both (λ (x : World × Code). Keeps w x.0) _ (fail_dialing env (w2, reported)) _
          (fail_dialing-Keeps env w w2 reported r2)
          (followed_by r2 (handle_start_dial-Keeps env info w2))))

pub dial_request-Keeps : (env : Env) (w : World) → Inv w.table → Keeps w (dial_request env w).0
unfolding dial_request
dial_request-Keeps env w v =
    let carrier =
      w.last_dial_type == dial_carrier_type || w.last_dial_type == dial_voice_mail_type in
    let fits = not (leb (length w.last_dial.number) 255) in
    let dialed = carrier_dial_process env w.last_dial w in
    let third : World × Code = if carrier then dialed else (w, Code.function_not_supported) in
    let second : World × Code = if fits then (w, Code.number_out_of_range) else third in
    let k = λ (x : World × Code). Keeps w x.0 in
    if_both k (not w.last_is_dialing) (w, Code.illegal_call_operation) second (start v)
      (if_both k fits (w, Code.number_out_of_range) third (start v)
        (if_both k carrier dialed (w, Code.function_not_supported)
          (carrier_dial_process-Keeps env w.last_dial w v) (start v)))
