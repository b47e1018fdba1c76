-- ===== src/Registry/Tests.antt =====
-- Runs of the registry, and the theorem at a concrete input.
use telephony_call_manager_m.Prelude.{◌≡◌, suc, none, some, [], ◌∷◌, List, if◌then◌else◌, arith}
use telephony_call_manager_m.Prelude.Eq.{nat_eq}
use telephony_call_manager_m.Registry.{Registry, register, is_listed, notified}
use telephony_call_manager_m.Registry.Once.{
  Step, registers, adds, removes, steps, count, IsOnce, register_calls_once,
}

-- The table has two places.
abbrev no_listener : Registry
no_listener = record { stack = none; listeners = none ∷ none ∷ []; calls = [] }

abbrev additions : List Step
additions =
    adds (some 3)
    ∷ adds (some 3)
    ∷ registers (some 9)
    ∷ adds (some 4)
    ∷ adds (some 5)
    ∷ removes (some 4)
    ∷ registers none
    ∷ []

no_listener-IsOnce : IsOnce no_listener
unfolding notified
no_listener-IsOnce j = omega arith

register_calls_once_example :
    let u = steps additions no_listener in
    count 3 (register (some 9) u).calls
    ≡ (if is_listed 3 u.listeners then suc (count 3 u.calls) else count 3 u.calls)
register_calls_once_example = register_calls_once additions no_listener 9 3 no_listener-IsOnce
