-- ===== src/EventLoop/Tick.antt =====
-- The 32-bit clock: the tests and the conversion of ticks.
use Prim.Native.Nat.{◌/◌}
use native.Mathlib.Nat.{div-mul-le_self, lt-div-mul-add, le-div_iff_mul-le}
use telephony_call_manager_m.Prelude.{
  ℕ, ◌+◌, ◌-◌, ◌*◌, ◌%◌, ◌≤◌, ◌<◌, ◌≡◌, ◌≢◌, ◌↔◌, ◌⊎◌, inl, inr, refl, true, arith, leb, Bool-cases,
  leb→le,
}
use telephony_call_manager_m.Prelude.Eq.{◌==◌, nat_eq, ==→≡}
use telephony_call_manager_m.EventLoop.{
  is_due, two_31, two_32, ticks_to_ms, wait_forever, next_task_id,
}

-- The tick counter wraps, and the test does not care: a task that was posted at any time with a delay
-- below 2 ^ 31 ticks is due exactly when that many ticks have passed, as long as fewer than 2 ^ 31 have
-- passed.
pub is_due_lem :
    (posted delay elapsed : ℕ)
    → delay < two_31
    → elapsed < two_31
    → (is_due ((posted + delay) % two_32) ((posted + elapsed) % two_32) ≡ true) ↔ (delay ≤ elapsed)
unfolding is_due
is_due_lem posted delay elapsed d e = (λ h. ground (arith, h, d, e), λ h. ground (arith, h, d, e))

-- A tick is an earlier tick's successor by less than half the range: the ticks that a table may hold.
abbrev pub key : ℕ → ℕ → ℕ
key base tick = (tick + (two_32 - base)) % two_32

abbrev pub InWindow : ℕ → ℕ → Type 0
InWindow base tick = (tick < two_32) × (key base tick < two_31)

-- Among ticks of one window the test is the order of their distances from its start.
pub is_due-key :
    (base a b : ℕ)
    → base < two_32
    → InWindow base a
    → InWindow base b
    → is_due a b ≡ leb (key base a) (key base b)
unfolding is_due
is_due-key base a b lt wa wb = ground (arith, lt, wa, wb)

-- Ticks of one window that have one distance are equal.
pub key_injective :
    (base a b : ℕ)
    → base < two_32
    → InWindow base a
    → InWindow base b
    → key base a ≡ key base b
    → a ≡ b
key_injective base a b lt wa wb e = omega (arith, lt, wa, wb, e)

-- At a tick frequency that is not 0 the conversion gives the least milliseconds that cover the ticks,
-- unless these are 2 ^ 32 - 1 or more, where it gives 2 ^ 32 - 2.
pub ticks_to_ms_lem :
    (freq ticks : ℕ)
    → freq ≢ 0
    → ((ticks * 1000 ≤ ticks_to_ms freq ticks * freq)
        × (ticks_to_ms freq ticks * freq < ticks * 1000 + freq))
      ⊎ ((ticks_to_ms freq ticks ≡ wait_forever - 1) × (wait_forever * freq < ticks * 1000 + freq))
unfolding ticks_to_ms
ticks_to_ms_lem freq ticks some_freq =
    let x = ticks * 1000 + (freq - 1) in
    let positive : 0 < freq = ground (arith, some_freq) in
    elim (Bool-cases (freq == 0)) [
      | inl e ↦ absurd (some_freq (==→≡ freq 0 e))
      | inr e ↦ elim (Bool-cases (leb wait_forever (x / freq))) [
        | inl f ↦
            rw (e, f)
              (inr (
                refl,
                omega (
                  arith,
                  (le-div_iff_mul-le {k = freq} {x = wait_forever} {y = x} positive).0
                      (leb→le _ _ f),
                  positive,
                ),
              ))
        | inr f ↦
            let low = div-mul-le_self x freq in
            let high = lt-div-mul-add {a = x} {b = freq} positive in
            rw (e, f) (inl (omega (arith, low, high, positive), omega (arith, low, high, positive)))
      ]
    ]

-- The id of a delayed task is a valid one.
pub next_task_id_lem : (last : ℕ) → (next_task_id last ≢ 0) × (next_task_id last < two_32)
unfolding next_task_id
next_task_id_lem last = ground arith
