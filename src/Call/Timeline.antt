-- ===== src/Call/Timeline.antt =====
-- The time stamps of a call object over its life: reports, and the local steps that move the call on.
use telephony_call_manager_m.Prelude.{
  ℕ, ◌+◌, ◌≤◌, ◌≡◌, ◌≢◌, refl, ◌⊎◌, inl, inr, arith, List, [], ◌∷◌, Bool-cases, ◌∙◌, sym,
}
use telephony_call_manager_m.Types.{TelCallState, RunningState, CallClass, CallDirection}
use telephony_call_manager_m.Call.{
  Clock, Call, DialParaInfo, new_call, set_tel_call_state, is_duplicate, state_changes,
  dial_call_base, incoming_call_base, reject_call_base,
}

-- What happens to a call: a report of the network, or `DialCallBase`, `IncomingCallBase` and
-- `RejectCallBase`.
pub data Event : Type 0 where
  report : TelCallState → Event
  dial ring reject : Event

pub step : Clock → Event → Call → Call
unfolding set_tel_call_state dial_call_base incoming_call_base reject_call_base
step now (report next) c = (set_tel_call_state now next c).0
step now dial c = (dial_call_base c).0
step now ring c = (incoming_call_base c).0
step now reject c = (reject_call_base c).0

-- Each event comes some time after the one before it, and some time may pass between the two readings of
-- the clock: it does not run backwards.
pub record Timed : Type 0 where
  pub elapsed : ℕ
  pub lasts : ℕ
  pub event : Event

abbrev pub clock_at : ℕ → Timed → Clock
clock_at now e = record { first = now + e.elapsed; second = now + e.elapsed + e.lasts }

pub run : ℕ → List Timed → Call → ℕ × Call
run now [] c = (now, c)
run now (e ∷ es) c = run (clock_at now e).second es (step (clock_at now e) e.event c)

-- No stamp lies in the future, the start is the begin, a call that began stopped ringing when it
-- began, and a call that has ended began and rang before its end. The ringing of a call that ends without
-- an answer may stop after the stamp of its end, which is taken first.
pub record IsTimely (now : ℕ) (c : Call) : Type 0 where
  pub begun : c.call_begin_time ≤ now
  pub rang : c.ring_begin_time ≤ now
  pub rung : c.ring_end_time ≤ now
  pub done : c.call_end_time ≤ now
  pub started : c.start_time ≡ c.call_begin_time
  pub answered_call : (c.call_begin_time ≡ 0) ⊎ (c.ring_end_time ≡ c.call_begin_time)
  pub ended_call :
      (c.running_state ≢ RunningState.ended)
      ⊎ ((c.call_begin_time ≤ c.call_end_time) × (c.ring_begin_time ≤ c.call_end_time))

IsTimely-later : (now later : ℕ) (c : Call) → now ≤ later → IsTimely now c → IsTimely later c
IsTimely-later now later c le t = record {
  begun = omega (arith, le, t.begun);
  rang = omega (arith, le, t.rang);
  rung = omega (arith, le, t.rung);
  done = omega (arith, le, t.done);
  started = t.started;
  answered_call = t.answered_call;
  ended_call = t.ended_call;
}

state_changes-IsTimely :
    (now : Clock) (next : TelCallState) (c : Call)
    → now.first ≤ now.second
    → IsTimely now.first c
    → IsTimely now.second (state_changes now next c)
unfolding state_changes
state_changes-IsTimely now TelCallState.dialing c le t = ground (arith, le, t)
state_changes-IsTimely now _ c le t = ground (arith, le, t)

step-IsTimely :
    (now : Clock) (e : Event) (c : Call)
    → now.first ≤ now.second
    → IsTimely now.first c
    → IsTimely now.second (step now e c)
unfolding step
step-IsTimely now (report next) c le t = elim (Bool-cases (is_duplicate next c)) [
  | inl e ↦ rw (e, step) (IsTimely-later now.first now.second c le t)
  | inr e ↦
      rw (e, step)
        (state_changes-IsTimely now next (record c { call_state = next }) le
          (record {
            begun = t.begun;
            rang = t.rang;
            rung = t.rung;
            done = t.done;
            started = t.started;
            answered_call = t.answered_call;
            ended_call = t.ended_call;
          }))
]
step-IsTimely now dial c le t = ground (arith, le, t)
step-IsTimely now ring c le t = ground (arith, le, t)
step-IsTimely now reject c le t = ground (arith, le, t)

IsTimely-run :
    (now : ℕ) (es : List Timed) (c : Call)
    → IsTimely now c
    → IsTimely (run now es c).0 (run now es c).1
unfolding run
IsTimely-run now [] c t = t
IsTimely-run now (e ∷ es) c t =
    let k = clock_at now e in
    IsTimely-run k.second es _
      (step-IsTimely k e.event c (omega arith) (IsTimely-later now k.first c (omega arith) t))

new_call-IsTimely :
    (now : ℕ) (k : CallClass) (d : CallDirection) (info : DialParaInfo)
    → IsTimely now (new_call k d info)
unfolding new_call
new_call-IsTimely now k d info = ground arith

-- After any events on a new call, under a clock that does not run backwards and is read as often as the
-- code does: no stamp of the call lies in the future; its start time is its begin time; if it began, then it
-- stopped ringing at that time; and if it has ended, then it neither began nor began to ring after its end.
pub run-IsTimely :
    (now : ℕ) (k : CallClass) (d : CallDirection) (info : DialParaInfo) (es : List Timed)
    → let (later, c) = run now es (new_call k d info) in IsTimely later c
run-IsTimely now k d info es = IsTimely-run now es _ (new_call-IsTimely now k d info)

abbrev SameBegin : Call → Call → Type 0
SameBegin c d = (d.call_begin_time ≡ c.call_begin_time) × (d.start_time ≡ c.start_time)

state_changes-begin :
    (now : Clock) (next : TelCallState) (c : Call)
    → c.call_begin_time ≢ 0
    → SameBegin c (state_changes now next c)
unfolding state_changes
state_changes-begin now TelCallState.dialing c h = (refl, refl)
state_changes-begin now _ c h = ground arith

step-begin :
    (now : Clock) (e : Event) (c : Call) → c.call_begin_time ≢ 0 → SameBegin c (step now e c)
unfolding step
step-begin now (report next) c h = elim (Bool-cases (is_duplicate next c)) [
  | inl e ↦ rw (e, step) (refl, refl)
  | inr e ↦ rw (e, step) (state_changes-begin now next (record c { call_state = next }) h)
]
step-begin now dial c h = (refl, refl)
step-begin now ring c h = (refl, refl)
step-begin now reject c h = (refl, refl)

-- Once a call has begun, no later event moves its begin time or its start time.
pub run_begin_once :
    (now : ℕ) (es : List Timed) (c : Call)
    → c.call_begin_time ≢ 0
    → ((run now es c).1.call_begin_time ≡ c.call_begin_time)
      × ((run now es c).1.start_time ≡ c.start_time)
unfolding run
run_begin_once now [] c h = (refl, refl)
run_begin_once now (e ∷ es) c h =
    let k = clock_at now e in
    let one = step-begin k e.event c h in
    let more = run_begin_once k.second es (step k e.event c) (λ z. h (sym one.0 ∙ z)) in
    (more.0 ∙ one.0, more.1 ∙ one.1)
