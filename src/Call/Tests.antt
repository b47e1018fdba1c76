-- ===== src/Call/Tests.antt =====
-- One outgoing call, as the network reports it.
use telephony_call_manager_m.Prelude.{ℕ, ◌≡◌, ◌≢◌, false, List, [], ◌∷◌, arith}
use telephony_call_manager_m.Prelude.Int.{pos}
use telephony_call_manager_m.Types.{TelCallState, RunningState, CallClass, CallDirection}
use telephony_call_manager_m.Samples.{info, call_in}
use telephony_call_manager_m.Call.{Clock, Call, new_call, set_tel_call_state}
use telephony_call_manager_m.Call.Report.{Follows, set_tel_call_state-Follows}
use telephony_call_manager_m.Call.Timeline.{
  Timed, IsTimely, run, report, run-IsTimely, run_begin_once,
}

abbrev alerting_call : Call
alerting_call = call_in (pos 7) TelCallState.alerting RunningState.dialing

abbrev active_call : Call
active_call = record (call_in (pos 7) TelCallState.active RunningState.active) {
  call_begin_time = 20;
  start_time = 20;
}

abbrev noon : Clock
noon = record { first = 20; second = 20 }

set_tel_call_state-Follows_example :
    Follows TelCallState.active alerting_call
      (set_tel_call_state noon TelCallState.active alerting_call)
set_tel_call_state-Follows_example =
    set_tel_call_state-Follows noon TelCallState.active alerting_call

abbrev after : ℕ → TelCallState → Timed
after n next = record { elapsed = n; lasts = 1; event = report next }

abbrev life : List Timed
life =
    after 1 TelCallState.incoming
    ∷ after 5 TelCallState.active
    ∷ after 60 TelCallState.disconnected
    ∷ []

run-IsTimely_example :
    let (later, c) =
      run 100 life (new_call CallClass.cs_call CallDirection.direction_in (info (pos 7) false)) in
    IsTimely later c
run-IsTimely_example =
    run-IsTimely 100 CallClass.cs_call CallDirection.direction_in (info (pos 7) false) life

has_begun : active_call.call_begin_time ≢ 0
has_begun e = omega (arith, e)

run_begin_once_example :
    ((run 30 life active_call).1.call_begin_time ≡ 20)
    × ((run 30 life active_call).1.start_time ≡ 20)
run_begin_once_example = run_begin_once 30 life active_call has_begun
