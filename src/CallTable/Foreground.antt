-- ===== src/CallTable/Foreground.antt =====
-- The loops that choose one call among all, as priorities between searches.
use telephony_call_manager_m.Prelude.{
  ℕ, ◌≡◌, refl, Bool, not, ◌&&◌, ◌||◌, Option, none, some, List, [], ◌∷◌, arith, if◌then◌else◌,
}
use telephony_call_manager_m.Prelude.Eq.{◌==◌}
use telephony_call_manager_m.Prelude.Int.{ℤ, int_eq}
use telephony_call_manager_m.Prelude.Search.{find_if, find_last_if}
use telephony_call_manager_m.Types.{TelCallState, tel_eq}
use telephony_call_manager_m.CallTable.{CallTable}
use telephony_call_manager_m.CallTable.Scans.{
  is_skipped, is_ringing_state, is_live_state, or_else, foreground_from, get_foreground_call,
  get_incoming_call, live_by_id_from, get_foreground_live_call_by_call_id,
}

-- A scan that keeps the last `keep` and stops at the first `stop`.
scan : (ℕ → Bool) → (ℕ → Bool) → Option ℕ → List ℕ → Option ℕ
scan stop keep live [] = live
scan stop keep live (p ∷ ps) =
    let rest = scan stop keep (if keep p then some p else live) ps in
    if stop p then some p else rest

scan_lem :
    (stop keep : ℕ → Bool) (live : Option ℕ) (ps : List ℕ)
    → scan stop keep live ps ≡ or_else (find_if stop ps) (or_else (find_last_if keep ps) live)
unfolding scan find_if find_last_if
scan_lem stop keep live [] = refl
scan_lem stop keep live (p ∷ ps) =
    ground (arith, scan_lem stop keep (if keep p then some p else live) ps)

abbrev rings : Bool → CallTable → ℕ → Bool
rings include_voip t p =
    not (is_skipped include_voip (t.heap p)) && is_ringing_state (t.heap p).call_state

-- Live or held.
abbrev is_up : Bool → CallTable → ℕ → Bool
is_up include_voip t p =
    not (is_skipped include_voip (t.heap p))
    && (is_live_state (t.heap p).call_state || (t.heap p).call_state == TelCallState.holding)

foreground-scan :
    (include_voip : Bool) (t : CallTable) (live : Option ℕ) (ps : List ℕ)
    → foreground_from include_voip t live ps
      ≡ scan (rings include_voip t) (is_up include_voip t) live ps
unfolding foreground_from scan
foreground-scan include_voip t live [] = refl
foreground-scan include_voip t live (p ∷ ps) =
    rw (foreground-scan include_voip t (if is_up include_voip t p then some p else live) ps)

or_else-none : (o : Option ℕ) → or_else o none ≡ o
or_else-none none = refl
or_else-none (some p) = refl

-- The call in the foreground is the first ringing call, and without one the last call that is
-- live or held.
pub get_foreground_call_lem :
    (include_voip : Bool) (t : CallTable)
    → get_foreground_call include_voip t
      ≡ or_else (get_incoming_call include_voip t) (
          find_last_if
            (λ p.
              not (is_skipped include_voip (t.heap p))
              && (is_live_state (t.heap p).call_state
                  || (t.heap p).call_state == TelCallState.holding))
            t.calls)
unfolding get_foreground_call get_incoming_call
get_foreground_call_lem include_voip t = rw (
  foreground-scan include_voip t none t.calls,
  scan_lem (rings include_voip t) (is_up include_voip t) none t.calls,
  or_else-none,
)

live_by_id-scan :
    (id : ℤ) (t : CallTable) (live : Option ℕ) (ps : List ℕ)
    → live_by_id_from id t live ps
      ≡ scan
          (λ p. (t.heap p).call_id == id && is_live_state (t.heap p).call_state)
          (λ p. (t.heap p).call_id == id && is_ringing_state (t.heap p).call_state)
          live
          ps
unfolding live_by_id_from scan
live_by_id-scan id t live [] = refl
live_by_id-scan id t live (p ∷ ps) = rw (
    live_by_id-scan id t
      (if (t.heap p).call_id == id && is_ringing_state (t.heap p).call_state then some p else live)
      ps)

-- Among the calls with an id the first live one is chosen, and without one the last ringing one.
pub get_foreground_live_call_by_call_id_lem :
    (id : ℤ) (t : CallTable)
    → get_foreground_live_call_by_call_id id t
      ≡ or_else
          (find_if (λ p. (t.heap p).call_id == id && is_live_state (t.heap p).call_state) t.calls)
          (find_last_if
            (λ p. (t.heap p).call_id == id && is_ringing_state (t.heap p).call_state)
            t.calls)
unfolding get_foreground_live_call_by_call_id
get_foreground_live_call_by_call_id_lem id t =
    rw (live_by_id-scan id t none t.calls, scan_lem _ _ none t.calls, or_else-none)
