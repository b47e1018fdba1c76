-- ===== src/Registry/Once.antt =====
-- The listeners of the registry under any sequence of its operations.
use telephony_call_manager_m.Prelude.{
  ℕ, suc, ◌+◌, ◌≤◌, ◌≡◌, subst, sym, refl, true, false, List, [], ◌∷◌, ◌++◌, Option, none, some,
  if◌then◌else◌, Bool-cases, Option-cases, inl, inr, arith,
}
use mathlib.Core.Option.{some-injective}
use telephony_call_manager_m.Prelude.Eq.{◌==◌, ==→≡, nat_eq}
use telephony_call_manager_m.Registry.{
  Registry, notified, register, is_listed, placed, call_if_ready, add_ready_listener,
  without_listener, remove_ready_listener,
}

pub data Step : Type 0 where
  registers adds removes : Option ℕ → Step

unfoldable pub step : Step → Registry → Registry
step (registers o) r = register o r
step (adds o) r = (add_ready_listener o r).0
step (removes o) r = remove_ready_listener o r

unfoldable pub steps : List Step → Registry → Registry
steps [] r = r
steps (s ∷ ss) r = steps ss (step s r)

-- How often a call names a listener.
abbrev pub count : ℕ → List ℕ → ℕ
count j [] = 0
count j (k ∷ ks) = if k == j then suc (count j ks) else count j ks

count_listed : (j : ℕ) (ls : List (Option ℕ)) → is_listed j ls ≡ false → count j (notified ls) ≡ 0
unfolding is_listed notified
count_listed j [] e = refl
count_listed j (none ∷ ls) e = count_listed j ls e
count_listed j (some k ∷ ls) e = ground (arith, e, count_listed j ls)

count_same :
    (j k : ℕ) (ls : List (Option ℕ))
    → is_listed k ls ≡ false
    → (k == j) ≡ true
    → count j (notified ls) ≡ 0
count_same j k ls e f = let g : k ≡ j = ==→≡ k j f in rw (sym g) (count_listed k ls e)

listed_once : (j : ℕ) (ls : List (Option ℕ)) → is_listed j ls ≡ true → 1 ≤ count j (notified ls)
unfolding is_listed notified
listed_once j [] e = cc
listed_once j (none ∷ ls) e = listed_once j ls e
listed_once j (some k ∷ ls) e = ground (arith, e, listed_once j ls)

placed_rest :
    (i k : ℕ) (ls rest ms : List (Option ℕ))
    → placed k ls ≡ some rest
    → placed k (some i ∷ ls) ≡ some ms
    → some i ∷ rest ≡ ms
unfolding placed
placed_rest i k ls rest ms f e = some-injective (some i ∷ rest) ms (rw f at e)

-- A listener that is placed is named once more, and no other.
abbrev IsPlaced : ℕ → ℕ → List (Option ℕ) → List (Option ℕ) → Type 0
IsPlaced j k ls ms =
    count j (notified ms) ≡ (if k == j then suc (count j (notified ls)) else count j (notified ls))

count_placed : (j k : ℕ) (ls ms : List (Option ℕ)) → placed k ls ≡ some ms → IsPlaced j k ls ms
unfolding placed notified
count_placed j k [] ms e = cc
count_placed j k (none ∷ ls) ms e =
    subst (IsPlaced j k (none ∷ ls)) (some-injective (some k ∷ ls) ms e) refl
count_placed j k (some i ∷ ls) ms e = elim (Option-cases (placed k ls)) [
  | inl f ↦ cc
  | inr (rest, f) ↦
      subst (IsPlaced j k (some i ∷ ls)) (placed_rest i k ls rest ms f e)
        (ground (arith, count_placed j k ls rest f))
]

count_without :
    (j k : ℕ) (ls : List (Option ℕ))
    → count j (notified (without_listener k ls)) ≤ count j (notified ls)
unfolding without_listener notified
count_without j k [] = omega arith
count_without j k (none ∷ ls) = count_without j k ls
count_without j k (some i ∷ ls) = elim (Bool-cases (i == k)) [
  | inl e ↦ rw e (ground (arith, count_without j k ls))
  | inr e ↦ rw e (ground (arith, count_without j k ls))
]

abbrev pub IsOnce : Registry → Type 0
IsOnce r = (j : ℕ) → count j (notified r.listeners) ≤ 1

call_if_ready-listeners : (k : ℕ) (r : Registry) → (call_if_ready k r).listeners ≡ r.listeners
unfolding call_if_ready
call_if_ready-listeners k r = elim (Option-cases r.stack) [
  | inl e ↦ rw e refl
  | inr (i, e) ↦ rw e refl
]

add-IsOnce : (o : Option ℕ) (r : Registry) → IsOnce r → IsOnce (add_ready_listener o r).0
unfolding add_ready_listener
add-IsOnce none r v = v
add-IsOnce (some k) r v = λ j. elim (Bool-cases (is_listed k r.listeners)) [
  | inl e ↦ rw (e, call_if_ready-listeners k r) (v j)
  | inr e ↦ elim (Option-cases (placed k r.listeners)) [
    | inl f ↦ rw (e, f) (v j)
    | inr (ls, f) ↦
        rw (e, f, call_if_ready-listeners k (record r { listeners = ls }))
          (ground (arith, count_placed j k r.listeners ls f, v j, count_same j k r.listeners e))
  ]
]

step-IsOnce : (s : Step) (r : Registry) → IsOnce r → IsOnce (step s r)
unfolding step register remove_ready_listener
step-IsOnce (registers none) r v = v
step-IsOnce (registers (some i)) r v = v
step-IsOnce (adds o) r v = add-IsOnce o r v
step-IsOnce (removes none) r v = v
step-IsOnce (removes (some k)) r v = λ j. omega (arith, count_without j k r.listeners, v j)

steps-IsOnce : (ss : List Step) (r : Registry) → IsOnce r → IsOnce (steps ss r)
unfolding steps
steps-IsOnce [] r v = v
steps-IsOnce (s ∷ ss) r v = steps-IsOnce ss (step s r) (step-IsOnce s r v)

count-++ : (j : ℕ) (ks ls : List ℕ) → count j (ks ++ ls) ≡ count j ks + count j ls
count-++ j [] ls = omega arith
count-++ j (k ∷ ks) ls = ground (arith, count-++ j ks ls)

-- From a table that names no listener twice, after any registrations of the stack, additions and removals:
-- when the stack is registered, each listener that is in the table is called once, and no other is.
pub register_calls_once :
    (ss : List Step) (r : Registry) (i j : ℕ)
    → IsOnce r
    → let u = steps ss r in
      count j (register (some i) u).calls
      ≡ (if is_listed j u.listeners then suc (count j u.calls) else count j u.calls)
unfolding register
register_calls_once ss r i j v =
    let u = steps ss r in
    let once = steps-IsOnce ss r v j in
    rw (count-++ j u.calls (notified u.listeners)) (elim (Bool-cases (is_listed j u.listeners)) [
      | inl e ↦ rw e (omega (arith, listed_once j u.listeners e, once))
      | inr e ↦ rw e (omega (arith, count_listed j u.listeners e))
    ])
