-- ===== src/Call/Report.antt =====
-- What one reported state does to a call object (`SetTelCallState`).
use telephony_call_manager_m.Prelude.{
  ◌≡◌, refl, ◌⊎◌, inl, inr, ◌≢◌, true, false, arith, sym, List, [], ◌∷◌, Bool-cases,
}
use telephony_call_manager_m.Prelude.Eq.{==→≡, ==_refl}
use telephony_call_manager_m.Types.{
  TelCallState, RunningState, Code, tel_eq, running_eq, CallClass, CallDirection,
}
use telephony_call_manager_m.Call.{
  Clock, Call, DialParaInfo, new_call, set_tel_call_state, is_duplicate, state_changes,
}

-- The local state that belongs to each state of the network.
abbrev pub running_of : TelCallState → RunningState → RunningState
running_of TelCallState.dialing r = RunningState.dialing
running_of TelCallState.alerting r = RunningState.dialing
running_of TelCallState.incoming r = RunningState.ringing
running_of TelCallState.waiting r = RunningState.ringing
running_of TelCallState.active r = RunningState.active
running_of TelCallState.holding r = RunningState.hold
running_of TelCallState.disconnected r = RunningState.ended
running_of TelCallState.disconnecting r = RunningState.ending
running_of _ r = r

-- What names a call to the table, the policies and the stack.
pub record SameIdentity (c d : Call) : Type 0 where
  pub same_id : d.call_id ≡ c.call_id
  pub same_index : d.index ≡ c.index
  pub same_slot : d.slot_id ≡ c.slot_id
  pub same_type : d.call_type ≡ c.call_type
  pub same_ecc : d.is_ecc ≡ c.is_ecc
  pub same_number : d.account_number ≡ c.account_number

state_changes-running :
    (now : Clock) (next : TelCallState) (c : Call)
    → (state_changes now next c).running_state ≡ running_of next c.running_state
unfolding state_changes
state_changes-running now TelCallState.dialing c = refl
state_changes-running now _ c = ground arith

state_changes-call_state :
    (now : Clock) (next : TelCallState) (c : Call)
    → (state_changes now next c).call_state ≡ c.call_state
unfolding state_changes
state_changes-call_state now TelCallState.dialing c = refl
state_changes-call_state now _ c = ground arith

state_changes-SameIdentity :
    (now : Clock) (next : TelCallState) (c : Call) → SameIdentity c (state_changes now next c)
unfolding state_changes
state_changes-SameIdentity now TelCallState.dialing c = ground arith
state_changes-SameIdentity now _ c = ground arith

-- A report keeps the id, the index, the slot, the type, the emergency mark and the number of a call.
pub set_tel_call_state-SameIdentity :
    (now : Clock) (next : TelCallState) (c : Call)
    → SameIdentity c (set_tel_call_state now next c).0
unfolding set_tel_call_state
set_tel_call_state-SameIdentity now next c = elim (Bool-cases (is_duplicate next c)) [
  | inl e ↦ rw e (ground arith)
  | inr e ↦
      rw e (
        let k = state_changes-SameIdentity now next (record c { call_state = next }) in
        ground arith)
]

-- A report that is refused: it repeats the state of a call past its creation, and is not
-- `CALL_STATUS_DIALING`.
abbrev pub IsRepetition : TelCallState → Call → Type 0
IsRepetition next c =
    (c.call_state ≡ next) × (c.running_state ≢ RunningState.create) × (next ≢ TelCallState.dialing)

-- What a report does: the refusal, and the change, each with its condition.
abbrev pub Follows : TelCallState → Call → Call × Code → Type 0
Follows next c (d, r) =
    (IsRepetition next c × (r ≡ Code.not_new_state) × (d ≡ c))
    ⊎ (¬ IsRepetition next c
        × (r ≡ Code.success)
        × (d.call_state ≡ next)
        × (d.running_state ≡ running_of next c.running_state))

is_duplicate-IsRepetition :
    (next : TelCallState) (c : Call) → is_duplicate next c ≡ true → IsRepetition next c
unfolding is_duplicate
is_duplicate-IsRepetition next c h =
    (==→≡ c.call_state next (ground arith), λ e. ground arith, λ e. ground arith)

is_duplicate_of :
    (next : TelCallState) (d : Call)
    → next ≢ TelCallState.dialing
    → d.call_state ≡ next
    → d.running_state ≢ RunningState.create
    → is_duplicate next d ≡ true
unfolding is_duplicate
is_duplicate_of next d fresh same begun =
    ground (
      arith,
      ==_refl next,
      ==→≡ next TelCallState.dialing,
      ==→≡ d.running_state RunningState.create,
    )

not_duplicate-IsRepetition :
    (next : TelCallState) (c : Call) → is_duplicate next c ≡ false → ¬ IsRepetition next c
not_duplicate-IsRepetition next c e (same, begun, fresh) =
    let f = is_duplicate_of next c fresh same begun in cc

-- A report is refused and changes nothing exactly when it repeats the state of a call past its creation and
-- is not `CALL_STATUS_DIALING`; otherwise it is taken, and then the call has the reported state and the
-- local state that belongs to it.
pub set_tel_call_state-Follows :
    (now : Clock) (next : TelCallState) (c : Call) → Follows next c (set_tel_call_state now next c)
unfolding set_tel_call_state
set_tel_call_state-Follows now next c = elim (Bool-cases (is_duplicate next c)) [
  | inl e ↦ rw e (inl (is_duplicate-IsRepetition next c e, refl, refl))
  | inr e ↦ rw e (
      inr (
        not_duplicate-IsRepetition next c e,
        refl,
        state_changes-call_state now next _,
        state_changes-running now next _,
      ))
]

set_tel_call_state_refused :
    (now : Clock) (next : TelCallState) (d : Call)
    → next ≢ TelCallState.dialing
    → d.call_state ≡ next
    → d.running_state ≢ RunningState.create
    → set_tel_call_state now next d ≡ (d, Code.not_new_state)
unfolding set_tel_call_state
set_tel_call_state_refused now next d fresh same begun =
    rw (is_duplicate_of next d fresh same begun)

-- A repeated report is refused, unless it is `CALL_STATUS_DIALING` or the call is still being created.
pub set_tel_call_state_again :
    (now later : Clock) (next : TelCallState) (c : Call)
    → next ≢ TelCallState.dialing
    → running_of next c.running_state ≢ RunningState.create
    → let d = (set_tel_call_state now next c).0 in
      set_tel_call_state later next d ≡ (d, Code.not_new_state)
set_tel_call_state_again now later next c fresh begun =
    elim (set_tel_call_state-Follows now next c) [
      | inl ((same, past, _), _, kept) ↦
          set_tel_call_state_refused later next _ fresh (rw kept same) (rw kept past)
      | inr (_, _, same, local) ↦
          set_tel_call_state_refused later next _ fresh same (rw local begun)
    ]

-- The reports that reach one call, with the time of each.
unfoldable pub run_reports : List (Clock × TelCallState) → Call → Call
run_reports [] c = c
run_reports ((now, next) ∷ rest) c = run_reports rest (set_tel_call_state now next c).0

abbrev pub IsAligned : Call → Type 0
IsAligned c = c.running_state ≡ running_of c.call_state c.running_state

running_of_twice :
    (next : TelCallState) (r : RunningState)
    → running_of next (running_of next r) ≡ running_of next r
running_of_twice TelCallState.dialing r = refl
running_of_twice _ r = refl

Follows-IsAligned :
    (next : TelCallState) (c : Call) (r : Call × Code)
    → Follows next c r
    → IsAligned c ⊎ (c.running_state ≡ RunningState.create)
    → IsAligned r.0
Follows-IsAligned next c (d, r) (inl (_, _, kept)) (inl a) = rw kept a
Follows-IsAligned next c (d, r) (inl ((_, past, _), _, kept)) (inr e) = absurd (past e)
Follows-IsAligned next c (d, r) (inr (_, _, same, local)) _ =
    rw (same, local) (sym (running_of_twice next c.running_state))

IsAligned-run_reports :
    (rs : List (Clock × TelCallState)) (c : Call) → IsAligned c → IsAligned (run_reports rs c)
unfolding run_reports
IsAligned-run_reports [] c a = a
IsAligned-run_reports ((now, next) ∷ rest) c a =
    IsAligned-run_reports rest _
      (Follows-IsAligned next c _ (set_tel_call_state-Follows now next c) (inl a))

-- From its first report on, a new call's local state is the one that belongs to its reported state.
pub run_reports-IsAligned :
    (k : CallClass) (d : CallDirection) (info : DialParaInfo) (now : Clock) (next : TelCallState)
    (rest : List (Clock × TelCallState))
    → IsAligned (run_reports ((now, next) ∷ rest) (new_call k d info))
unfolding run_reports
run_reports-IsAligned k d info now next rest = IsAligned-run_reports rest _ (
    Follows-IsAligned next _ _ (set_tel_call_state-Follows now next (new_call k d info))
      (inr (unfold new_call in refl)))
