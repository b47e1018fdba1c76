-- ===== src/EventLoop/Sync/Owner.antt =====
-- Who holds a waiter slot: the one call that is not over.
use telephony_call_manager_m.Prelude.{
  ℕ, suc, ◌-◌, ◌≡◌, ◌≢◌, ◌⊎◌, refl, sym, inl, inr, subst, ◌∙◌, Bool, true, false, Bool-cases, arith,
}
use telephony_call_manager_m.Prelude.Eq.{◌==◌, nat_eq}
use telephony_call_manager_m.Types.{Code}
use telephony_call_manager_m.EventLoop.Sync.{
  Phase, Context, Slot, update, new_context, acquire, enqueued, not_enqueued, complete, wake,
  time_out, finish, Step, Reach, new_slot,
}

-- A call that is over: its caller has returned and its message is gone.
pub data IsOver (c : Context) : Type 0 where
  over : (code : Code) → c.phase ≡ Phase.returned code → c.pending ≡ false → IsOver c

abbrev pub IsBehindWait : Phase → Type 0
IsBehindWait p = (p ≡ Phase.waiting) ⊎ (p ≡ Phase.timed_out)

-- What a call may look like while it holds the slot, with the count of the semaphore.
pub data Holds (n : ℕ) (c : Context) : Type 0 where
  posts :
      c.phase ≡ Phase.posting
      → c.pending ≡ false
      → c.done ≡ false
      → c.abandoned ≡ false
      → n ≡ 0
      → Holds n c
  waits :
      IsBehindWait c.phase
      → c.pending ≡ true
      → c.done ≡ false
      → c.abandoned ≡ false
      → n ≡ 0
      → Holds n c
  is_signalled :
      IsBehindWait c.phase
      → c.pending ≡ false
      → c.done ≡ true
      → c.abandoned ≡ false
      → n ≡ 1
      → Holds n c
  is_woken :
      c.phase ≡ Phase.woken
      → c.pending ≡ false
      → c.done ≡ true
      → c.abandoned ≡ false
      → n ≡ 0
      → Holds n c
  gave_up :
      (code : Code)
      → c.phase ≡ Phase.returned code
      → c.pending ≡ true
      → c.done ≡ false
      → c.abandoned ≡ true
      → n ≡ 0
      → Holds n c

abbrev pub OthersOver : ℕ → Slot → Type 0
OthersOver o s = (j : ℕ) → j ≢ o → IsOver (s.contexts j)

pub data Inv (s : Slot) : Type 0 where
  free : s.in_use ≡ false → s.signals ≡ 0 → ((j : ℕ) → IsOver (s.contexts j)) → Inv s
  held : (o : ℕ) → s.in_use ≡ true → Holds s.signals (s.contexts o) → OthersOver o s → Inv s

pub new_slot-Inv : Inv new_slot
new_slot-Inv = free refl refl (λ j. over Code.success refl refl)

contexts-update-same : (i : ℕ) (c : Context) (s : Slot) → (update i c s).contexts i ≡ c
contexts-update-same i c s = ground arith

contexts-update-other :
    (i j : ℕ) (c : Context) (s : Slot) → j ≢ i → (update i c s).contexts j ≡ s.contexts j
contexts-update-other i j c s ne = ground (arith, ne)

-- The holder's context changes and it stays the holder.
goes_on :
    (o n : ℕ) (b : Bool) (c : Context) (s : Slot) (m : ℕ)
    → b ≡ true
    → Holds n c
    → OthersOver o s
    → Inv (record (update o c s) { in_use = b; signals = n; next = m })
goes_on o n b c s m e h others =
    held o e (rw (contexts-update-same o c s) h)
      (λ j ne. rw (contexts-update-other o j c s ne) (others j ne))

-- The holder is over and the slot is free.
lets_go :
    (o : ℕ) (c : Context) (s : Slot)
    → IsOver c
    → OthersOver o s
    → Inv (record (update o c s) { in_use = false; signals = 0 })
lets_go o c s h others = free refl refl (λ j. elim (Bool-cases (j == o)) [
  | inl e ↦ rw e h
  | inr e ↦ rw e (others j (ground (arith, e)))
])

abbrev pub IsHeldBy : ℕ → Slot → Type 0
IsHeldBy i s = (s.in_use ≡ true) × Holds s.signals (s.contexts i) × OthersOver i s

pub held_by : (i : ℕ) (s : Slot) → Inv s → ¬ IsOver (s.contexts i) → IsHeldBy i s
held_by i s (free e z others) no_over = absurd (no_over (others i))
held_by i s (held o e h others) no_over = elim (Bool-cases (i == o)) [
  | inl same ↦
      let eq : i ≡ o = ground (arith, same) in subst (λ k. IsHeldBy k s) (sym eq) (e, h, others)
  | inr other ↦ absurd (no_over (others i (ground (arith, other))))
]

pub not_over_phase :
    (c : Context) (p : Phase) → c.phase ≡ p → ((code : Code) → p ≢ Phase.returned code) → ¬ IsOver c
not_over_phase c p e ne (over code r q) = ne code (sym e ∙ r)

pub not_over_pending : (c : Context) → c.pending ≡ true → ¬ IsOver c
not_over_pending c e (over code r q) = cc

acquire-Inv : (s : Slot) → s.in_use ≡ false → Inv s → Inv (acquire s)
unfolding acquire
acquire-Inv s e (free f z others) =
    goes_on s.next s.signals true new_context s (suc s.next) refl (posts refl refl refl refl z)
      (λ j ne. others j)
acquire-Inv s e (held o f h others) = absurd (cc)

enqueued-Inv :
    (i : ℕ) (s : Slot) → (s.contexts i).phase ≡ Phase.posting → Inv s → Inv (enqueued i s)
unfolding enqueued
enqueued-Inv i s e v =
    let x = held_by i s v (not_over_phase (s.contexts i) Phase.posting e (λ code. cc)) in
    elim x.1 [
      | posts p q d a n ↦
          goes_on i s.signals s.in_use _ s s.next x.0 (waits (inl refl) refl d a n) x.2
      | waits p q d a n ↦ absurd (ground arith)
      | is_signalled p q d a n ↦ absurd (ground arith)
      | is_woken p q d a n ↦ absurd (ground arith)
      | gave_up code p q d a n ↦ absurd (ground arith)
    ]

not_enqueued-Inv :
    (i : ℕ) (code : Code) (s : Slot)
    → (s.contexts i).phase ≡ Phase.posting
    → Inv s
    → Inv (not_enqueued i code s)
unfolding not_enqueued
not_enqueued-Inv i code s e v =
    let x = held_by i s v (not_over_phase (s.contexts i) Phase.posting e (λ k. cc)) in
    elim x.1 [
      | posts p q d a n ↦ rw n (lets_go i _ s (over code refl q) x.2)
      | waits p q d a n ↦ absurd (ground arith)
      | is_signalled p q d a n ↦ absurd (ground arith)
      | is_woken p q d a n ↦ absurd (ground arith)
      | gave_up k p q d a n ↦ absurd (ground arith)
    ]

complete-Inv :
    (i : ℕ) (code : Code) (s : Slot)
    → (s.contexts i).pending ≡ true
    → Inv s
    → Inv (complete i code s)
unfolding complete
complete-Inv i code s e v =
    let x = held_by i s v (not_over_pending (s.contexts i) e) in
    elim x.1 [
      | posts p q d a n ↦ absurd (cc)
      | waits p q d a n ↦
          let c = record (s.contexts i) {
            status = code;
            done = true;
            abandoned = false;
            pending = false;
          } in
          rw a (
            goes_on i (suc s.signals) s.in_use c s s.next x.0
              (is_signalled p refl refl refl (omega (arith, n))) x.2)
      | is_signalled p q d a n ↦ absurd (cc)
      | is_woken p q d a n ↦ absurd (cc)
      | gave_up k p q d a n ↦
          let c = record (s.contexts i) {
            status = code;
            done = true;
            abandoned = true;
            pending = false;
          } in
          rw (a, n) (lets_go i c s (over k p refl) x.2)
    ]

wake-Inv :
    (i n : ℕ) (s : Slot)
    → (s.contexts i).phase ≡ Phase.waiting
    → s.signals ≡ suc n
    → Inv s
    → Inv (wake i s)
unfolding wake
wake-Inv i n s e f v =
    let x = held_by i s v (not_over_phase (s.contexts i) Phase.waiting e (λ k. cc)) in
    elim x.1 [
      | posts p q d a m ↦ absurd (cc)
      | waits p q d a m ↦ absurd (omega (arith, m, f))
      | is_signalled p q d a m ↦
          goes_on i (s.signals - 1) s.in_use _ s s.next x.0 (is_woken refl q d a (omega (arith, m)))
            x.2
      | is_woken p q d a m ↦ absurd (cc)
      | gave_up k p q d a m ↦ absurd (cc)
    ]

time_out-Inv :
    (i : ℕ) (s : Slot) → (s.contexts i).phase ≡ Phase.waiting → Inv s → Inv (time_out i s)
unfolding time_out
time_out-Inv i s e v =
    let x = held_by i s v (not_over_phase (s.contexts i) Phase.waiting e (λ k. cc)) in
    elim x.1 [
      | posts p q d a m ↦ absurd (cc)
      | waits p q d a m ↦ goes_on i s.signals s.in_use _ s s.next x.0 (waits (inr refl) q d a m) x.2
      | is_signalled p q d a m ↦
          goes_on i s.signals s.in_use _ s s.next x.0 (is_signalled (inr refl) q d a m) x.2
      | is_woken p q d a m ↦ absurd (cc)
      | gave_up k p q d a m ↦ absurd (cc)
    ]

finish-woken : (i : ℕ) (s : Slot) → (s.contexts i).phase ≡ Phase.woken → Inv s → Inv (finish i s)
unfolding finish
finish-woken i s e v =
    let x = held_by i s v (not_over_phase (s.contexts i) Phase.woken e (λ k. cc)) in
    elim x.1 [
      | posts p q d a m ↦ absurd (cc)
      | waits p q d a m ↦ absurd (ground arith)
      | is_signalled p q d a m ↦ absurd (ground arith)
      | is_woken p q d a m ↦
          let c = record (s.contexts i) { phase = Phase.returned (s.contexts i).status } in
          rw (e, m) (lets_go i c s (over (s.contexts i).status refl q) x.2)
      | gave_up k p q d a m ↦ absurd (cc)
    ]

finish-timed_out :
    (i : ℕ) (s : Slot) → (s.contexts i).phase ≡ Phase.timed_out → Inv s → Inv (finish i s)
unfolding finish
finish-timed_out i s e v =
    let x = held_by i s v (not_over_phase (s.contexts i) Phase.timed_out e (λ k. cc)) in
    elim x.1 [
      | posts p q d a m ↦ absurd (cc)
      | waits p q d a m ↦
          let c = record (s.contexts i) {
            abandoned = true;
            done = false;
            phase = Phase.returned Code.ipc_connect_stub_fail;
          } in
          rw (e, d)
            (goes_on i s.signals s.in_use c s s.next x.0
              (gave_up Code.ipc_connect_stub_fail refl q refl refl m) x.2)
      | is_signalled p q d a m ↦
          let c = record (s.contexts i) {
            done = true;
            phase = Phase.returned (s.contexts i).status;
          } in
          rw (e, d, m) (lets_go i c s (over (s.contexts i).status refl q) x.2)
      | is_woken p q d a m ↦ absurd (cc)
      | gave_up k p q d a m ↦ absurd (cc)
    ]

pub Step-Inv : {s t : Slot} → Step s t → Inv s → Inv t
Step-Inv {s} (Step.acquires e) v = acquire-Inv s e v
Step-Inv {s} (Step.enqueues i e) v = enqueued-Inv i s e v
Step-Inv {s} (Step.refuses i code e) v = not_enqueued-Inv i code s e v
Step-Inv {s} (Step.completes i code e) v = complete-Inv i code s e v
Step-Inv {s} (Step.wakes i n e f) v = wake-Inv i n s e f v
Step-Inv {s} (Step.times_out i e) v = time_out-Inv i s e v
Step-Inv {s} (Step.finishes i (inl e)) v = finish-woken i s e v
Step-Inv {s} (Step.finishes i (inr e)) v = finish-timed_out i s e v

pub Reach-Inv : {s : Slot} → Reach new_slot s → Inv s
Reach-Inv Reach.here = new_slot-Inv
Reach-Inv (Reach.after r x) = Step-Inv x (Reach-Inv r)
