-- ===== src/CallTable/Limits.antt =====
-- What the size of the table means for admission and for the two maxima.
use telephony_call_manager_m.Prelude.{
  ℕ, suc, ◌≤◌, ◌<◌, ◌≡◌, ◌≢◌, subst, refl, ap, Bool, true, false, not, some, List, [], ◌∷◌, arith,
  Bool-cases, inl, inr, length,
}
use telephony_call_manager_m.Prelude.Eq.{◌==◌}
use telephony_call_manager_m.Prelude.Search.{any_if, count_if, count_if-le-length}
use telephony_call_manager_m.Types.{RunningState, Code, running_eq}
use telephony_call_manager_m.CallTable.{
  CallTable, id_of, is_ecc_at, add_one_call_object, append_call, limit_for,
}
use telephony_call_manager_m.CallTable.Scans.{
  has_ringing_maximum, has_dialing_maximum, has_emergency_call,
}
use telephony_call_manager_m.CallTable.Reserve.{Fresh, Inv}
use telephony_call_manager_m.CallTable.Steps.{add_one_call_object-Added}

-- In a table that satisfies the invariant neither maximum, of ringing or of dialing calls, is reached.
pub maxima_unreachable :
    (t : CallTable) → Inv t → (has_ringing_maximum t ≡ false) × (has_dialing_maximum t ≡ false)
unfolding has_ringing_maximum
maxima_unreachable t v = (
  ground (
    arith,
    count_if-le-length (λ p. (t.heap p).running_state == RunningState.ringing) t.calls,
    v.bounded,
  ),
  unfold has_dialing_maximum in
      ground (
        arith,
        count_if-le-length (λ p. (t.heap p).running_state == RunningState.active) t.calls,
        v.bounded,
      ),
)

all_ordinary :
    (test : ℕ → Bool) (ps : List ℕ)
    → any_if test ps ≡ false
    → count_if (λ p. not (test p)) ps ≡ length ps
unfolding any_if count_if
all_ordinary test [] h = refl
all_ordinary test (p ∷ ps) h = elim (Bool-cases (test p)) [
  | inl e ↦ ground arith
  | inr e ↦ rw e (ap suc (all_ordinary test ps (rw e at h)))
]

-- While no emergency call is in a table that satisfies the invariant, an emergency call with a new id is
-- admitted.
pub emergency_admitted :
    (p : ℕ) (t : CallTable)
    → Inv t
    → has_emergency_call t ≡ false
    → is_ecc_at t p ≡ true
    → Fresh (id_of t) (id_of t p) t.calls
    → add_one_call_object (some p) t ≡ (append_call p t, Code.success)
unfolding has_emergency_call limit_for
emergency_admitted p t v none_yet ecc fresh = elim (add_one_call_object-Added p t) [
  | inl (old, _) ↦ absurd (old fresh)
  | inr (inl (_, full, _)) ↦
      let few = all_ordinary (λ q. is_ecc_at t q) t.calls none_yet in
      let room : 5 ≤ length t.calls = subst (λ b. limit_for b ≤ length t.calls) ecc full in
      absurd (omega (arith, few, v.reserved))
  | inr (inr (_, _, e)) ↦ e
]

-- A call that is not an emergency call is refused when the table has four calls or more, and the table
-- stays as it was.
pub ordinary_refused :
    (p : ℕ) (t : CallTable)
    → is_ecc_at t p ≡ false
    → 4 ≤ length t.calls
    → ((add_one_call_object (some p) t).0 ≡ t) × ((add_one_call_object (some p) t).1 ≢ Code.success)
unfolding limit_for
ordinary_refused p t plain full = elim (add_one_call_object-Added p t) [
  | inl (_, e) ↦ rw e (refl, λ s. cc)
  | inr (inl (_, _, e)) ↦ rw e (refl, λ s. cc)
  | inr (inr (_, room, _)) ↦
      let few : length t.calls < 4 = subst (λ b. length t.calls < limit_for b) plain room in
      absurd (omega arith)
]
