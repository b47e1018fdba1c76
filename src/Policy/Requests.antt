-- ===== src/Policy/Requests.antt =====
-- When a request on one call is let through, and what that means for the requests after it.
use telephony_call_manager_m.Prelude.{
  ℕ, ◌≡◌, ◌≢◌, ◌↔◌, ◌⊎◌, ◌≤◌, inl, inr, refl, sym, subst, ◌∙◌, Bool, true, false, ◌||◌, none, some,
  List, [], ◌∷◌, arith, Bool-cases, if◌then◌else◌, length, Option-cases,
}
use mathlib.Core.Option.{some-injective, none-ne-some}
use telephony_call_manager_m.Prelude.Eq.{◌==◌, ==_refl, nat_eq}
use telephony_call_manager_m.Prelude.Int.{ℤ, int_eq}
use telephony_call_manager_m.Prelude.Search.{find_if, any_if-eq-find_if}
use telephony_call_manager_m.Types.{TelCallState, RunningState, Code, tel_eq, running_eq}
use telephony_call_manager_m.Call.{Clock, Call, set_tel_call_state}
use telephony_call_manager_m.Call.Report.{
  set_tel_call_state-Follows, set_tel_call_state-SameIdentity,
}
use telephony_call_manager_m.CallTable.{CallTable, modify, id_of}
use telephony_call_manager_m.CallTable.Queries.{
  get_one_call_object, is_call_exist, is_state_exist, get_call_state,
}
use telephony_call_manager_m.CallTable.Scans.{get_carrier_call_list}
use telephony_call_manager_m.Policy.{
  reject_call_policy, answer_call_policy, hold_call_policy, un_hold_call_policy, hang_up_policy,
  switch_call_policy, rings_or_waits, voice_value, video_value,
}

-- The table has the call, in a state of this kind.
pub record IsFound (P : Call → Type 0) (id : ℤ) (t : CallTable) : Type 0 where
  pub at : ℕ
  pub found : get_one_call_object id t ≡ some at
  pub holds : P (t.heap at)

abbrev pub Rings : Call → Type 0
Rings c = (c.call_state ≡ TelCallState.incoming) ⊎ (c.call_state ≡ TelCallState.waiting)

-- What the policies read of a call, in one look.
found-exist :
    (id : ℤ) (t : CallTable)
    → is_call_exist id t ≡ elim (get_one_call_object id t) [ none ↦ false | some _ ↦ true ]
unfolding is_call_exist get_one_call_object
found-exist id t = any_if-eq-find_if (λ p. id_of t p == id) t.calls

found-state :
    (id : ℤ) (t : CallTable)
    → get_call_state id t ≡ elim (get_one_call_object id t) [
      | none ↦ TelCallState.idle
      | some p ↦ (t.heap p).call_state
    ]
unfolding get_call_state get_one_call_object
found-state id t = refl

IsFound-some :
    (P : Call → Type 0) (id : ℤ) (t : CallTable) (p : ℕ)
    → get_one_call_object id t ≡ some p
    → IsFound P id t
    → P (t.heap p)
IsFound-some P id t p e f =
    subst (λ r. P (t.heap r)) (some-injective f.at p (sym f.found ∙ e)) f.holds

IsFound-none :
    (P : Call → Type 0) (id : ℤ) (t : CallTable)
    → get_one_call_object id t ≡ none
    → ¬ IsFound P id t
IsFound-none P id t e f = none-ne-some f.at (sym e ∙ f.found)

rings_or_waits_iff : (c : Call) → (rings_or_waits c.call_state ≡ true) ↔ Rings c
rings_or_waits_iff c = (λ h. ground (arith, h), λ h. ground (arith, h))

-- A call can be rejected exactly when the table has it and it rings or waits.
pub reject_call_policy_accepts :
    (id : ℤ) (t : CallTable) → (reject_call_policy id t ≡ Code.success) ↔ IsFound Rings id t
unfolding reject_call_policy
reject_call_policy_accepts id t = elim (Option-cases (get_one_call_object id t)) [
  | inl e ↦ rw (found-exist id t, e) (λ h. cc h, λ f. absurd (IsFound-none Rings id t e f))
  | inr (p, e) ↦
      rw (found-exist id t, found-state id t, e)
        (
          λ h. record {
            at = p;
            found = e;
            holds = (rings_or_waits_iff (t.heap p)).0 (ground (arith, h));
          },
          λ f. rw ((rings_or_waits_iff (t.heap p)).1 (IsFound-some Rings id t p e f)) refl,
        )
]

-- A call can be answered exactly when voice or video is asked for and the call could be rejected.
pub answer_call_policy_accepts :
    (id v : ℤ) (t : CallTable)
    → (answer_call_policy id v t ≡ Code.success)
      ↔ (((v ≡ voice_value) ⊎ (v ≡ video_value)) × IsFound Rings id t)
unfolding answer_call_policy
answer_call_policy_accepts id v t = (
  λ h. (ground (arith, h), (reject_call_policy_accepts id t).0 (ground (arith, h))),
  λ h. let r = (reject_call_policy_accepts id t).1 h.1 in ground (arith, h, r),
)

abbrev pub IsUp : Call → Type 0
IsUp c =
    (c.call_state ≢ TelCallState.idle)
    × (c.call_state ≢ TelCallState.disconnecting)
    × (c.call_state ≢ TelCallState.disconnected)

abbrev is_down : TelCallState → Bool
is_down s =
    s == TelCallState.idle || (s == TelCallState.disconnecting || s == TelCallState.disconnected)

IsUp-iff : (c : Call) → (is_down c.call_state ≡ false) ↔ IsUp c
IsUp-iff c = (λ h. ground (arith, h), λ h. ground (arith, h))

-- A call can be hung up exactly when the table has it and it is neither idle nor already going down.
pub hang_up_policy_accepts :
    (id : ℤ) (t : CallTable) → (hang_up_policy id t ≡ Code.success) ↔ IsFound IsUp id t
unfolding hang_up_policy
hang_up_policy_accepts id t = elim (Option-cases (get_one_call_object id t)) [
  | inl e ↦ rw (found-exist id t, e) (λ h. cc h, λ f. absurd (IsFound-none IsUp id t e f))
  | inr (p, e) ↦
      rw (found-exist id t, found-state id t, e)
        (
          λ h. record { at = p; found = e; holds = (IsUp-iff (t.heap p)).0 (ground (arith, h)) },
          λ f. rw ((IsUp-iff (t.heap p)).1 (IsFound-some IsUp id t p e f)) refl,
        )
]

-- A call that can be answered can be hung up instead.
pub answer_then_hang_up :
    (id v : ℤ) (t : CallTable)
    → answer_call_policy id v t ≡ Code.success
    → hang_up_policy id t ≡ Code.success
answer_then_hang_up id v t h =
    let f = ((answer_call_policy_accepts id v t).0 h).1 in
    let rings = f.holds in
    (hang_up_policy_accepts id t).1
      (record { at = f.at; found = f.found; holds = ground (arith, rings) })

abbrev pub IsActive : Call → Type 0
IsActive c = c.running_state ≡ RunningState.active

abbrev pub IsHeld : Call → Type 0
IsHeld c = c.running_state ≡ RunningState.hold

-- A call can be held exactly when the table has it and it is active.
pub hold_call_policy_accepts :
    (id : ℤ) (t : CallTable) → (hold_call_policy id t ≡ Code.success) ↔ IsFound IsActive id t
unfolding hold_call_policy
hold_call_policy_accepts id t = elim (Option-cases (get_one_call_object id t)) [
  | inl e ↦ rw (e, hold_call_policy) (λ h. cc h, λ f. absurd (IsFound-none IsActive id t e f))
  | inr (p, e) ↦
      rw (e, hold_call_policy)
        (
          λ h. record { at = p; found = e; holds = ground (arith, h) },
          λ f. let a = IsFound-some IsActive id t p e f in rw a refl,
        )
]

-- A call can be resumed exactly when the table has it and it is held.
pub un_hold_call_policy_accepts :
    (id : ℤ) (t : CallTable) → (un_hold_call_policy id t ≡ Code.success) ↔ IsFound IsHeld id t
unfolding un_hold_call_policy
un_hold_call_policy_accepts id t = elim (Option-cases (get_one_call_object id t)) [
  | inl e ↦ rw (e, un_hold_call_policy) (λ h. cc h, λ f. absurd (IsFound-none IsHeld id t e f))
  | inr (p, e) ↦
      rw (e, un_hold_call_policy)
        (
          λ h. record { at = p; found = e; holds = ground (arith, h) },
          λ f. let a = IsFound-some IsHeld id t p e f in rw a refl,
        )
]

-- A reported state leaves every call where it was in the table.
get_one_call_object-report :
    (p : ℕ) (now : Clock) (next : TelCallState) (id : ℤ) (t : CallTable)
    → get_one_call_object id (modify p (λ c. (set_tel_call_state now next c).0) t)
      ≡ get_one_call_object id t
unfolding get_one_call_object modify find_if
get_one_call_object-report p now next id t = go t.calls
  where
    go :
        (ps : List ℕ)
        → find_if
            (λ q.
              (if q == p then (set_tel_call_state now next (t.heap q)).0 else t.heap q).call_id
              == id)
            ps
          ≡ find_if (λ q. id_of t q == id) ps
    go [] = refl
    go (q ∷ qs) = elim (Bool-cases (q == p)) [
      | inl e ↦ rw (e, (set_tel_call_state-SameIdentity now next (t.heap q)).same_id, go qs)
      | inr e ↦ rw (e, go qs)
    ]

set_holding :
    (now : Clock) (c : Call)
    → IsActive c
    → c.call_state ≢ TelCallState.holding
    → IsHeld (set_tel_call_state now TelCallState.holding c).0
set_holding now c a fresh = elim (set_tel_call_state-Follows now TelCallState.holding c) [
  | inl ((same, _, _), _, _) ↦ absurd (fresh same)
  | inr (_, _, _, local) ↦ local
]

-- A call that can be held, and has not been reported on hold, can be resumed once the network reports it
-- on hold.
pub hold_then_un_hold :
    (now : Clock) (p : ℕ) (id : ℤ) (t : CallTable)
    → hold_call_policy id t ≡ Code.success
    → get_one_call_object id t ≡ some p
    → (t.heap p).call_state ≢ TelCallState.holding
    → un_hold_call_policy id (modify p (λ c. (set_tel_call_state now TelCallState.holding c).0) t)
      ≡ Code.success
unfolding modify
hold_then_un_hold now p id t h e fresh =
    let a = IsFound-some IsActive id t p e ((hold_call_policy_accepts id t).0 h) in
    (un_hold_call_policy_accepts id _).1 (record {
      at = p;
      found = unfold modify in (get_one_call_object-report p now TelCallState.holding id t ∙ e);
      holds = rw (==_refl p) (set_holding now (t.heap p) a fresh);
    })

-- The two calls of a switch: at least two carrier calls, and nothing that is being dialed.
pub record CanSwitch (id : ℤ) (t : CallTable) : Type 0 where
  pub held : IsFound (λ c. c.call_state ≡ TelCallState.holding) id t
  pub two : 2 ≤ length (get_carrier_call_list t)
  pub no_dialing : is_state_exist TelCallState.dialing t ≡ false
  pub no_alerting : is_state_exist TelCallState.alerting t ≡ false

-- A switch is let through exactly when the table has the call, the call is on hold, there are two
-- carrier calls at least, and no call is dialing or alerting.
pub switch_call_policy_accepts :
    (id : ℤ) (t : CallTable) → (switch_call_policy id t ≡ Code.success) ↔ CanSwitch id t
unfolding switch_call_policy
switch_call_policy_accepts id t = elim (Option-cases (get_one_call_object id t)) [
  | inl e ↦ rw (found-exist id t, e) (λ h. cc h, λ s. absurd (IsFound-none _ id t e s.held))
  | inr (p, e) ↦
      rw (found-exist id t, found-state id t, e)
        (
          λ h. record {
            held = record { at = p; found = e; holds = ground (arith, h) };
            two = ground (arith, h);
            no_dialing = ground (arith, h);
            no_alerting = ground (arith, h);
          },
          λ s.
              let held = IsFound-some _ id t p e s.held in
              ground (arith, held, s.two, s.no_dialing, s.no_alerting),
        )
]
