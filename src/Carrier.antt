-- ===== src/Carrier.antt =====
-- services/call/src/mini/carrier_call.cpp, with what cs_call.cpp and ims_call.cpp make of it: the requests
-- that a call sends to the cellular stack. The constructors take the connection's singleton, which is
-- never null while memory lasts. The two classes differ in one operation, `AnswerCall`.
use telephony_call_manager_m.Prelude.{ℕ, ◌/◌, ◌%◌, Bool, false, if◌then◌else◌}
use telephony_call_manager_m.Prelude.Eq.{◌==◌, nat_eq}
use telephony_call_manager_m.Prelude.Int.{ℤ}
use telephony_call_manager_m.Types.{CallClass, Code, is_success}
use telephony_call_manager_m.Call.{Call, dial_call_base, answer_call_base, reject_call_base}
use telephony_call_manager_m.Service.{
  World, Env, Request, Supplement, CellularCallInfo, send, pack_cellular_call_info, edit,
}

abbrev pub call_at : ℕ → World → Call
call_at p w = w.table.heap p

abbrev pub info_at : ℕ → World → CellularCallInfo
info_at p w = (pack_cellular_call_info (call_at p w)).0

-- A request whose failure is reported as `e`.
unfoldable pub send_or : Env → Code → Request → World → World × Code
send_or env e r w =
    let (w', code) = send env r w in (w', if is_success code then Code.success else e)

-- `POLICY_FLAG_HANG_UP_ACTIVE` and `POLICY_FLAG_HANG_UP_HOLD_WAIT`, as the number of their bit.
abbrev pub flag_hang_up_active : ℕ
flag_hang_up_active = 512

abbrev pub flag_hang_up_hold_wait : ℕ
flag_hang_up_hold_wait = 256

-- `policyFlag & flag`, of a flag of one bit.
abbrev pub has_flag : ℕ → ℕ → Bool
has_flag flags flag = flags / flag % 2 == 1

unfoldable pub supplement_of : ℕ → Supplement
supplement_of flags =
    if has_flag flags flag_hang_up_active
    then Supplement.hang_up_active
    else if has_flag flags flag_hang_up_hold_wait
    then Supplement.hang_up_hold_wait
    else Supplement.default

module _ (env : Env) where
  unfoldable pub carrier_hang_up_call : ℕ → World → World × Code
  unfolding send_or supplement_of
  carrier_hang_up_call p w =
      send_or env Code.hangup_failed
        (Request.hang_up (info_at p w) (supplement_of (call_at p w).policy_flag)) w

  unfoldable pub carrier_dialing_process : ℕ → World → World × Code
  unfolding edit carrier_hang_up_call
  carrier_dialing_process p w =
      let (c, code) = dial_call_base (call_at p w) in
      let dialed = edit p (λ _. c) w in
      if is_success code then (dialed, code) else ((carrier_hang_up_call p dialed).0, code)

  unfoldable pub carrier_answer_call : ℕ → ℤ → Bool → World → World × Code
  unfolding send_or
  carrier_answer_call p video_state is_rtt w =
      if is_success (answer_call_base (call_at p w))
      then send_or env Code.answer_failed
          (Request.answer (record (info_at p w) { video_state = video_state; is_rtt = is_rtt })) w
      else (w, Code.answer_failed)

  -- `CSCall::AnswerCall` drops the RTT flag.
  unfoldable pub answer_call : ℕ → ℤ → Bool → World → World × Code
  unfolding carrier_answer_call
  answer_call p video_state is_rtt w =
      carrier_answer_call p video_state
        (elim (call_at p w).call_class [ CallClass.cs_call ↦ false | CallClass.ims_call ↦ is_rtt ])
        w

  unfoldable pub carrier_reject_call : ℕ → World → World × Code
  unfolding send_or edit
  carrier_reject_call p w =
      let (c, code) = reject_call_base (call_at p w) in
      let rejected = edit p (λ _. c) w in
      if is_success code
      then send_or env Code.reject_failed (Request.hang_up (info_at p rejected) Supplement.default)
          rejected
      else (rejected, code)

  unfoldable pub carrier_hold_call : ℕ → World → World × Code
  unfolding send_or
  carrier_hold_call p w = send_or env Code.hold_failed (Request.hold (info_at p w)) w

  unfoldable pub carrier_un_hold_call : ℕ → World → World × Code
  unfolding send_or
  carrier_un_hold_call p w = send_or env Code.unhold_failed (Request.un_hold (info_at p w)) w

  -- A switch that fails is reported as a resumption that fails.
  unfoldable pub carrier_switch_call : ℕ → World → World × Code
  unfolding send_or
  carrier_switch_call p w = send_or env Code.unhold_failed (Request.switch (info_at p w)) w

  unfoldable pub carrier_set_mute : ℤ → ℤ → World → World × Code
  unfolding send
  carrier_set_mute mute slot_id w = send env (Request.set_mute mute slot_id) w

  unfoldable pub carrier_combine_conference : ℕ → World → World × Code
  unfolding send
  carrier_combine_conference p w = send env (Request.combine_conference (info_at p w)) w

  unfoldable pub carrier_separate_conference : ℕ → World → World × Code
  unfolding send
  carrier_separate_conference p w = send env (Request.separate_conference (info_at p w)) w

  unfoldable pub carrier_kick_out_from_conference : ℕ → World → World × Code
  unfolding send
  carrier_kick_out_from_conference p w = send env (Request.kick_out_from_conference (info_at p w)) w

  unfoldable pub start_dtmf : ℕ → ℕ → World → World × Code
  unfolding send
  start_dtmf p c w = send env (Request.start_dtmf c (info_at p w)) w

  unfoldable pub stop_dtmf : ℕ → World → World × Code
  unfolding send
  stop_dtmf p w = send env (Request.stop_dtmf (info_at p w)) w

  unfoldable pub post_dial_proceed : ℕ → Bool → World → World × Code
  unfolding send
  post_dial_proceed p proceed w = send env (Request.post_dial_proceed (info_at p w) proceed) w

-- An emergency call cannot join a conference.
unfoldable pub is_support_conferenceable : Call → Code
is_support_conferenceable c =
    if c.is_ecc then Code.emergency_unsupport_conferenceable else Code.success
