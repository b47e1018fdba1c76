-- ===== src/Requests/Dialed.antt =====
-- A dialed call takes its first report: `UpdateDialingCallInfo` of a call without an index.
use telephony_call_manager_m.Prelude.{ℕ, ◌≡◌, refl, subst, sym, ap, ◌∙◌, true, none, some, arith}
use telephony_call_manager_m.Prelude.Eq.{◌==◌, ==_refl, nat_eq}
use telephony_call_manager_m.Prelude.Int.{ℤ, pos, ltb_ℤ}
use telephony_call_manager_m.Types.{TelCallState, RunningState, Code, Bytes, call_type_eq}
use telephony_call_manager_m.Call.{Clock, Call, set_tel_call_state, is_duplicate}
use telephony_call_manager_m.Call.Report.{set_tel_call_state-SameIdentity}
use telephony_call_manager_m.CallTable.{modify}
use telephony_call_manager_m.CallTable.Queries.{get_one_call_object_by_index}
use telephony_call_manager_m.Status.{CallDetailInfo, refresh_marks, refresh_call_if_necessary}
use telephony_call_manager_m.Service.{World, Env, edit}
use telephony_call_manager_m.Carrier.{call_at}
use telephony_call_manager_m.Reports.Calls.{clear_pending_state, refresh}
use telephony_call_manager_m.Reports.Dialing.{
  init_index, find_reported, update_dialing_handle, take_report, update_dialing_call_info,
  dialing_handle,
}
use telephony_call_manager_m.Reports.Handle.{handle_call_report_info, handle_state}

-- The call `d` is `c` with the index of a report, dialing.
pub record IsNamed (index : ℤ) (c d : Call) : Type 0 where
  pub same_id : d.call_id ≡ c.call_id
  pub same_flags : d.policy_flag ≡ c.policy_flag
  pub has_index : d.index ≡ index
  pub dials : d.running_state ≡ RunningState.dialing

set_dialing :
    (now : Clock) (c : Call)
    → let d = (set_tel_call_state now TelCallState.dialing c).0 in
      (d.running_state ≡ RunningState.dialing) × (d.policy_flag ≡ c.policy_flag)
unfolding set_tel_call_state is_duplicate
set_dialing now c = ground arith

take_report-IsNamed :
    (now : Clock) (number : Bytes) (info : CallDetailInfo) (c : Call)
    → info.state ≡ TelCallState.dialing
    → IsNamed info.index c (take_report now number info c)
unfolding take_report
take_report-IsNamed now number info c e =
    let c1 = record c {
      index = info.index;
      bundle_name = info.bundle_name;
      slot_id = info.account_id;
    } in
    let (dials, flags) = set_dialing now c1 in
    let kept = set_tel_call_state-SameIdentity now TelCallState.dialing c1 in
    rw e (record {
      same_id = kept.same_id;
      same_flags = flags;
      has_index = kept.same_index;
      dials = dials;
    })

-- The call after the report.
abbrev pub named_call : Env → CallDetailInfo → Call → Call
named_call env info c = take_report env.now c.account_number info (refresh_marks info c)

pub named_call-IsNamed :
    (env : Env) (info : CallDetailInfo) (c : Call)
    → info.state ≡ TelCallState.dialing
    → IsNamed info.index c (named_call env info c)
unfolding refresh_marks
named_call-IsNamed env info c e =
    let n = take_report-IsNamed env.now c.account_number info (refresh_marks info c) e in
    record {
      same_id = n.same_id;
      same_flags = n.same_flags;
      has_index = n.has_index;
      dials = n.dials;
    }

refresh_same :
    (env : Env) (info : CallDetailInfo) (p : ℕ) (w : World)
    → ((call_at p w).call_type == info.call_type) ≡ true
    → refresh env info p w ≡ (edit p (refresh_marks info) w, p)
unfolding refresh refresh_call_if_necessary edit
refresh_same env info p w same = rw same refl

update_dialing_call_info_names :
    (env : Env) (info : CallDetailInfo) (p : ℕ) (w : World)
    → find_reported info w.table ≡ none
    → get_one_call_object_by_index init_index w.table ≡ some p
    → ((call_at p w).call_type == info.call_type) ≡ true
    → update_dialing_call_info env info w ≡ (
      clear_pending_state env p (
          edit p
            (take_report env.now (call_at p w).account_number info)
            (edit p (refresh_marks info) w)),
      Code.success,
    )
unfolding update_dialing_call_info
update_dialing_call_info_names env info p w e f same =
    let take = take_report env.now (call_at p w).account_number info in
    rw (e, update_dialing_call_info, f)
      (ap (λ x. (clear_pending_state env x.1 (edit x.1 take x.0), Code.success))
        (refresh_same env info p w same))

edited : (p : ℕ) (f : Call → Call) (w : World) → call_at p (edit p f w) ≡ f (call_at p w)
unfolding edit modify
edited p f w = rw (==_refl p) refl

handle_call_report_info_dialing :
    (env : Env) (info : CallDetailInfo) (w : World)
    → info.state ≡ TelCallState.dialing
    → handle_call_report_info env info w ≡ dialing_handle env info w
unfolding handle_call_report_info
handle_call_report_info_dialing env info w e = ap (λ s. handle_state env s info w) e

dialing_handle_updates :
    (env : Env) (info : CallDetailInfo) (w : World)
    → ltb_ℤ (pos 0) info.index ≡ true
    → update_dialing_handle info w.table ≡ true
    → dialing_handle env info w ≡ update_dialing_call_info env info w
unfolding dialing_handle
dialing_handle_updates env info w up known = rw (up, known) refl

-- The call's first report, from its handler on.
pub handle_call_report_info_names :
    (env : Env) (info : CallDetailInfo) (p : ℕ) (w : World)
    → info.state ≡ TelCallState.dialing
    → ltb_ℤ (pos 0) info.index ≡ true
    → update_dialing_handle info w.table ≡ true
    → find_reported info w.table ≡ none
    → get_one_call_object_by_index init_index w.table ≡ some p
    → ((call_at p w).call_type == info.call_type) ≡ true
    → (w1 : World) × (handle_call_report_info env info w
        ≡ (clear_pending_state env p w1, Code.success))
      × (w1.log ≡ w.log)
      × (w1.helper ≡ w.helper)
      × IsNamed info.index (call_at p w) (call_at p w1)
unfolding edit
handle_call_report_info_names env info p w dials up known e f same =
    let c = call_at p w in
    let marked = edit p (refresh_marks info) w in
    let named = edit p (take_report env.now c.account_number info) marked in
    let at : call_at p named ≡ named_call env info c =
      rw
        (
          edited p (take_report env.now c.account_number info) marked,
          edited p (refresh_marks info) w,
        )
        refl in
    (
      named,
      handle_call_report_info_dialing env info w dials
          ∙ (dialing_handle_updates env info w up known
              ∙ update_dialing_call_info_names env info p w e f same),
      refl,
      refl,
      subst (λ d. IsNamed info.index c d) (sym at) (named_call-IsNamed env info c dials),
    )
