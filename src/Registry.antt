-- ===== src/Registry.antt =====
-- utils/mini/src/tel_mini_registry.cpp: the registry of the cellular stack, with the listeners that wait for
-- it. A listener is a function pointer, known by a number; the null pointer is `none`.
pub mod Once
mod Tests
use telephony_call_manager_m.Prelude.{
  ℕ, Bool, true, false, ◌||◌, List, [], ◌∷◌, ◌++◌, Option, none, some, if◌then◌else◌,
}
use telephony_call_manager_m.Prelude.Eq.{◌==◌, nat_eq}

pub record Registry : Type 0 where
  pub stack : Option ℕ  -- g_cellularCall
  pub listeners : List (Option ℕ)  -- g_readyListeners
  pub calls : List ℕ  -- the calls of listeners so far

-- `NotifyReady`: the listeners in the table, in order.
unfoldable pub notified : List (Option ℕ) → List ℕ
notified [] = []
notified (none ∷ ls) = notified ls
notified (some k ∷ ls) = k ∷ notified ls

unfoldable pub register : Option ℕ → Registry → Registry
unfolding notified
register none r = record r { stack = none }
register (some i) r = record r { stack = some i; calls = r.calls ++ notified r.listeners }

unfoldable pub is_listed : ℕ → List (Option ℕ) → Bool
is_listed k [] = false
is_listed k (none ∷ ls) = is_listed k ls
is_listed k (some j ∷ ls) = j == k || is_listed k ls

-- The first free place.
unfoldable pub placed : ℕ → List (Option ℕ) → Option (List (Option ℕ))
placed k [] = none
placed k (none ∷ ls) = some (some k ∷ ls)
placed k (some j ∷ ls) =
    let rest = placed k ls in elim rest [ none ↦ none | some ms ↦ some (some j ∷ ms) ]

-- The call of a listener that was added, if the stack is there already.
unfoldable pub call_if_ready : ℕ → Registry → Registry
call_if_ready k r = elim r.stack [ none ↦ r | some i ↦ record r { calls = r.calls ++ (k ∷ []) } ]

unfoldable pub add_ready_listener : Option ℕ → Registry → Registry × Bool
unfolding is_listed placed call_if_ready
add_ready_listener none r = (r, false)
add_ready_listener (some k) r =
    if is_listed k r.listeners then (call_if_ready k r, true) else elim (placed k r.listeners) [
      | none ↦ (r, false)
      | some ls ↦ (call_if_ready k (record r { listeners = ls }), true)
    ]

unfoldable pub without_listener : ℕ → List (Option ℕ) → List (Option ℕ)
without_listener k [] = []
without_listener k (none ∷ ls) = none ∷ without_listener k ls
without_listener k (some j ∷ ls) =
    let rest = without_listener k ls in if j == k then none ∷ rest else some j ∷ rest

-- A null pointer is replaced by itself.
unfoldable pub remove_ready_listener : Option ℕ → Registry → Registry
unfolding without_listener
remove_ready_listener none r = r
remove_ready_listener (some k) r = record r { listeners = without_listener k r.listeners }
