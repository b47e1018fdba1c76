-- ===== src/EventLoop/Due.antt =====
-- What the timer takes out of the table.
use telephony_call_manager_m.Prelude.{
  ℕ, suc, ◌<◌, ◌≡◌, inl, inr, refl, ap, Bool, true, false, not, List, [], ◌∷◌, arith, Bool-cases,
  get_elem?, set, take, Option, none, some,
}
use telephony_call_manager_m.Prelude.Search.{All, All-mono, remove_if}
use telephony_call_manager_m.EventLoop.{DelayedTask, is_due, take_due, two_32, acquire_waiter}
use telephony_call_manager_m.EventLoop.Tick.{key, InWindow, is_due-key}
use telephony_call_manager_m.EventLoop.Order.{AllIn, IsOrdered, key_of}

module _ {ℓ} {A : Type ℓ} where
  abbrev pub due_at : ℕ → DelayedTask A → Bool
  due_at now x = is_due x.due_tick now

  remove_if-none :
      (p : DelayedTask A → Bool) (xs : List (DelayedTask A))
      → All (λ x. p x ≡ false) xs
      → remove_if p xs ≡ xs
  unfolding remove_if
  remove_if-none p [] a = refl
  remove_if-none p (x ∷ xs) a = rw (a.0, remove_if-none p xs a.1)

  remove_if-All :
      (p : DelayedTask A → Bool) (xs : List (DelayedTask A))
      → All (λ x. p x ≡ false) xs
      → remove_if (λ x. not (p x)) xs ≡ []
  unfolding remove_if
  remove_if-All p [] a = refl
  remove_if-All p (x ∷ xs) a = rw (a.0, remove_if-All p xs a.1)

  none_due :
      (base now : ℕ) (xs : List (DelayedTask A))
      → base < two_32
      → InWindow base now
      → AllIn base xs
      → All (λ x. key base now < key_of base x) xs
      → All (λ x. due_at now x ≡ false) xs
  none_due base now [] lt wn w a = tt
  none_due base now (x ∷ xs) lt wn w a =
      let k = is_due-key base x.due_tick now lt w.0 wn in
      (ground (arith, k, a.0), none_due base now xs lt wn w.1 a.1)

  -- In a table whose ticks, and the clock, lie in one half range and that is in order, what the timer
  -- takes is every task that is due and nothing else, in order, and what it leaves is the others, in
  -- order.
  pub take_due_lem :
      (base now : ℕ) (xs : List (DelayedTask A))
      → base < two_32
      → InWindow base now
      → AllIn base xs
      → IsOrdered base xs
      → take_due now xs ≡ (remove_if (λ x. not (due_at now x)) xs, remove_if (λ x. due_at now x) xs)
  unfolding take_due remove_if
  take_due_lem base now [] lt wn w o = refl
  take_due_lem base now (x ∷ xs) lt wn w o = elim (Bool-cases (due_at now x)) [
    | inl h ↦ rw (h, take_due_lem base now xs lt wn w.1 o.1) refl
    | inr h ↦
        let k = is_due-key base x.due_tick now lt w.0 wn in
        let late : key base now < key_of base x = ground (arith, k, h) in
        let rest =
          none_due base now xs lt wn w.1 (All-mono (λ y le. omega (arith, late, le)) xs o.0) in
        rw
          (h, remove_if-none (λ y. due_at now y) xs rest, remove_if-All (λ y. due_at now y) xs rest)
          refl
  ]

-- What `AcquireWaiter` promises: no slot, and then every slot is in use; or the first slot that was free,
-- now in use, with every other slot as it was.
abbrev pub Acquired : List Bool → List Bool × Option ℕ → Type 0
Acquired ws (ws', none) = (ws' ≡ ws) × All (λ w. w ≡ true) ws
Acquired ws (ws', some i) =
    (get_elem? ws i ≡ some false) × (ws' ≡ set ws i true) × All (λ w. w ≡ true) (take i ws)

Acquired-cons :
    (ws : List Bool) (r : List Bool × Option ℕ)
    → Acquired ws r
    → Acquired (true ∷ ws) (true ∷ r.0, elim r.1 [ none ↦ none | some i ↦ some (suc i) ])
Acquired-cons ws (ws', none) (e, all) = (ap (λ l. true ∷ l) e, (refl, all))
Acquired-cons ws (ws', some i) (free, e, before) = (free, ap (λ l. true ∷ l) e, (refl, before))

-- `AcquireWaiter` takes the first free slot, and no slot exactly when none is free; no other slot
-- changes.
pub acquire_waiter-Acquired : (ws : List Bool) → Acquired ws (acquire_waiter ws)
unfolding acquire_waiter
acquire_waiter-Acquired [] = (refl, tt)
acquire_waiter-Acquired (true ∷ ws) =
    Acquired-cons ws (acquire_waiter ws) (acquire_waiter-Acquired ws)
acquire_waiter-Acquired (false ∷ ws) = (refl, refl, tt)
