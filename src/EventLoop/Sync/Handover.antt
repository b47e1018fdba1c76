-- ===== src/EventLoop/Sync/Handover.antt =====
-- What the two sides of a synchronous post can rely on.
use telephony_call_manager_m.Prelude.{
  ℕ, suc, ◌≡◌, ◌⊎◌, refl, inl, inr, true, false, Bool-cases, arith,
}
use telephony_call_manager_m.Prelude.Eq.{◌==◌, nat_eq}
use telephony_call_manager_m.Types.{Code}
use telephony_call_manager_m.EventLoop.Sync.{
  Phase, Slot, Step, Reach, not_enqueued, complete, finish, wake, new_slot,
}
use telephony_call_manager_m.EventLoop.Sync.Owner.{
  IsOver, Inv, free, held, posts, waits, is_signalled, is_woken, gave_up, held_by, not_over_phase,
  not_over_pending, Reach-Inv,
}

-- What holds of the calls on a slot.
pub record IsSound (s : Slot) : Type 0 where
  -- A free slot has no signal left, and every call on it is over.
  quiet : s.in_use ≡ false → (s.signals ≡ 0) × ((j : ℕ) → IsOver (s.contexts j))
  -- A caller that the semaphore woke was woken by the end of its own call.
  own : (i : ℕ) → (s.contexts i).phase ≡ Phase.woken → (s.contexts i).done ≡ true
  -- No two messages of calls on the slot are on their way.
  single : (i j : ℕ) → (s.contexts i).pending ≡ true → (s.contexts j).pending ≡ true → i ≡ j

own_lem :
    (i : ℕ) (s : Slot) → Inv s → (s.contexts i).phase ≡ Phase.woken → (s.contexts i).done ≡ true
own_lem i s v e = elim (held_by i s v (not_over_phase (s.contexts i) Phase.woken e (λ k. cc))).1 [
  | posts p q d a m ↦ absurd (cc)
  | waits p q d a m ↦ absurd (ground arith)
  | is_signalled p q d a m ↦ d
  | is_woken p q d a m ↦ d
  | gave_up k p q d a m ↦ absurd (cc)
]

single_lem :
    (i j : ℕ) (s : Slot)
    → Inv s
    → (s.contexts i).pending ≡ true
    → (s.contexts j).pending ≡ true
    → i ≡ j
single_lem i j s v e f = elim (Bool-cases (i == j)) [
  | inl same ↦ ground (arith, same)
  | inr other ↦
      let x = held_by i s v (not_over_pending (s.contexts i) e) in
      absurd (not_over_pending (s.contexts j) f (x.2 j (ground (arith, other))))
]

quiet_lem :
    (s : Slot) → Inv s → s.in_use ≡ false → (s.signals ≡ 0) × ((j : ℕ) → IsOver (s.contexts j))
quiet_lem s (free e z others) f = (z, others)
quiet_lem s (held o e h others) f = absurd (cc)

-- However the callers, the loop and the timeouts interleave on a waiter slot: while it is free no signal
-- is left on its semaphore and no call on it is on its way; a caller that the semaphore woke was woken
-- by the end of its own call, never by a signal that an earlier call left; and two calls on the slot
-- are never on their way at once.
pub Reach-IsSound : (s : Slot) → Reach new_slot s → IsSound s
Reach-IsSound s r = record {
  quiet = quiet_lem s (Reach-Inv r);
  own = λ i. own_lem i s (Reach-Inv r);
  single = λ i j. single_lem i j s (Reach-Inv r);
}

abbrev pub CanFree : Slot → Type 0
CanFree s = (u : Slot) × Reach s u × (u.in_use ≡ false)

first : {s t u : Slot} → Step s t → Reach t u → Reach s u
first x Reach.here = Reach.after Reach.here x
first x (Reach.after r y) = Reach.after (first x r) y

first-CanFree : {s t : Slot} → Step s t → CanFree t → CanFree s
first-CanFree x (u, r, e) = (u, first x r, e)

finish-in_use : (i : ℕ) (s : Slot) → (s.contexts i).done ≡ true → (finish i s).in_use ≡ false
unfolding finish
finish-in_use i s d = ground (arith, d)

complete-in_use :
    (i : ℕ) (code : Code) (s : Slot)
    → (s.contexts i).abandoned ≡ true
    → (complete i code s).in_use ≡ false
unfolding complete
complete-in_use i code s a = ground (arith, a)

finish-CanFree :
    (i : ℕ) (s : Slot)
    → ((s.contexts i).phase ≡ Phase.woken) ⊎ ((s.contexts i).phase ≡ Phase.timed_out)
    → (s.contexts i).done ≡ true
    → CanFree s
finish-CanFree i s e d =
    (finish i s, Reach.after Reach.here (Step.finishes i e), finish-in_use i s d)

wake-CanFree :
    (i n : ℕ) (s : Slot)
    → (s.contexts i).phase ≡ Phase.waiting
    → (s.contexts i).done ≡ true
    → s.signals ≡ suc n
    → CanFree s
wake-CanFree i n s e d f = first-CanFree (Step.wakes i n e f) (
    finish-CanFree i (wake i s) (inl (unfold wake in ground arith))
      (unfold wake in ground (arith, d)))

signalled-CanFree :
    (i : ℕ) (s : Slot)
    → ((s.contexts i).phase ≡ Phase.waiting) ⊎ ((s.contexts i).phase ≡ Phase.timed_out)
    → (s.contexts i).done ≡ true
    → s.signals ≡ 1
    → CanFree s
signalled-CanFree i s (inl e) d f = wake-CanFree i 0 s e d f
signalled-CanFree i s (inr e) d f = finish-CanFree i s (inr e) d

waits-CanFree :
    (i : ℕ) (s : Slot)
    → ((s.contexts i).phase ≡ Phase.waiting) ⊎ ((s.contexts i).phase ≡ Phase.timed_out)
    → (s.contexts i).pending ≡ true
    → (s.contexts i).abandoned ≡ false
    → s.signals ≡ 0
    → CanFree s
unfolding complete
waits-CanFree i s e q a m = first-CanFree (Step.completes i Code.success q) (
    signalled-CanFree i (complete i Code.success s) (rw a (ground arith)) (rw a (ground arith))
      (rw (a, m) refl))

-- A slot that is in use is never lost: from wherever the callers, the loop and the timeouts have got to,
-- they can get to where the slot is free.
pub Reach-CanFree : (s : Slot) → Reach new_slot s → CanFree s
Reach-CanFree s r = elim (Reach-Inv r) [
  | free e z others ↦ (s, Reach.here, e)
  | held o e (posts p q d a m) others ↦ (
    not_enqueued o Code.uninit s,
    Reach.after Reach.here (Step.refuses o Code.uninit p),
    unfold not_enqueued in refl,
  )
  | held o e (waits p q d a m) others ↦ waits-CanFree o s p q a m
  | held o e (is_signalled p q d a m) others ↦ signalled-CanFree o s p d m
  | held o e (is_woken p q d a m) others ↦ finish-CanFree o s (inl p) d
  | held o e (gave_up k p q d a m) others ↦ (
    complete o Code.success s,
    Reach.after Reach.here (Step.completes o Code.success q),
    complete-in_use o Code.success s a,
  )
]
