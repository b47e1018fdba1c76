-- ===== src/Prelude/Search.antt =====
-- The loops over a `std::list` that the call table writes out: first hit, last hit (a reverse
-- iterator), existence, count, removal.
use Prim.Native.Nat.{ℕ, suc, ◌+◌, ◌≤◌}
use mathlib.Core.Path.{◌≡◌, refl}
use mathlib.Core.Logic.{inl, inr}
use mathlib.Core.Bool.{Bool, true, false}
use mathlib.Core.Option.{Option, none, some}
use mathlib.Core.List.{List, [], ◌∷◌, ◌++◌}
use native.Mathlib.Omega.{arith}
use telephony_call_manager_m.Prelude.Tests.{if◌then◌else◌, Bool-cases}
use telephony_call_manager_m.Prelude.Lists.{length}

module _ {ℓ} {A : Type ℓ} where
  -- What a nullable result holds, if it is not null.
  abbrev pub Holds {κ} : (A → Type κ) → Option A → Type κ
  Holds P none = Unit
  Holds P (some x) = P x

  abbrev pub All {κ} : (A → Type κ) → List A → Type κ
  All P [] = Unit
  All P (x ∷ xs) = P x × All P xs

  unfoldable pub find_if : (A → Bool) → List A → Option A
  find_if p [] = none
  find_if p (x ∷ xs) = if p x then some x else find_if p xs

  unfoldable pub find_last_if : (A → Bool) → List A → Option A
  find_last_if p [] = none
  find_last_if p (x ∷ xs) = elim (find_last_if p xs) [
    | some y ↦ some y
    | none ↦ if p x then some x else none
  ]

  unfoldable pub any_if : (A → Bool) → List A → Bool
  any_if p [] = false
  any_if p (x ∷ xs) = if p x then true else any_if p xs

  unfoldable pub count_if : (A → Bool) → List A → ℕ
  count_if p [] = 0
  count_if p (x ∷ xs) = if p x then suc (count_if p xs) else count_if p xs

  -- `erase` of the first hit, after which the loop breaks.
  unfoldable pub erase_first : (A → Bool) → List A → List A
  erase_first p [] = []
  erase_first p (x ∷ xs) = if p x then xs else x ∷ erase_first p xs

  -- `std::list::remove`.
  unfoldable pub remove_if : (A → Bool) → List A → List A
  remove_if p [] = []
  remove_if p (x ∷ xs) = if p x then remove_if p xs else x ∷ remove_if p xs

  pub count_if-le-length : (p : A → Bool) (xs : List A) → count_if p xs ≤ length xs
  unfolding count_if
  count_if-le-length p [] = omega arith
  count_if-le-length p (x ∷ xs) = ground (arith, count_if-le-length p xs)

  pub count_if-append :
      (p : A → Bool) (xs ys : List A) → count_if p (xs ++ ys) ≡ count_if p xs + count_if p ys
  unfolding count_if
  count_if-append p [] ys = omega arith
  count_if-append p (x ∷ xs) ys = ground (arith, count_if-append p xs ys)

  pub any_if-eq-find_if :
      (p : A → Bool) (xs : List A)
      → any_if p xs ≡ elim (find_if p xs) [ none ↦ false | some _ ↦ true ]
  unfolding any_if find_if
  any_if-eq-find_if p [] = refl
  any_if-eq-find_if p (x ∷ xs) = elim (Bool-cases (p x)) [
    | inl e ↦ rw e
    | inr e ↦ rw e (any_if-eq-find_if p xs)
  ]

  pub find_if-Holds : (p : A → Bool) (xs : List A) → Holds (λ x. p x ≡ true) (find_if p xs)
  unfolding find_if
  find_if-Holds p [] = tt
  find_if-Holds p (x ∷ xs) = elim (Bool-cases (p x)) [
    | inl e ↦ rw e e
    | inr e ↦ rw e (find_if-Holds p xs)
  ]

  pub find_last_if-Holds :
      (p : A → Bool) (xs : List A) → Holds (λ x. p x ≡ true) (find_last_if p xs)
  unfolding find_last_if
  find_last_if-Holds p [] = tt
  find_last_if-Holds p (x ∷ xs) = ground (arith, find_last_if-Holds p xs)

  pub find_if-append :
      (p : A → Bool) (xs ys : List A)
      → find_if p (xs ++ ys) ≡ elim (find_if p xs) [ some x ↦ some x | none ↦ find_if p ys ]
  unfolding find_if
  find_if-append p [] ys = refl
  find_if-append p (x ∷ xs) ys = elim (Bool-cases (p x)) [
    | inl e ↦ rw e
    | inr e ↦ rw e (find_if-append p xs ys)
  ]

  pub length-erase_first-le : (p : A → Bool) (xs : List A) → length (erase_first p xs) ≤ length xs
  unfolding erase_first
  length-erase_first-le p [] = omega arith
  length-erase_first-le p (x ∷ xs) = ground (arith, length-erase_first-le p xs)

  pub length-remove_if-le : (p : A → Bool) (xs : List A) → length (remove_if p xs) ≤ length xs
  unfolding remove_if
  length-remove_if-le p [] = omega arith
  length-remove_if-le p (x ∷ xs) = ground (arith, length-remove_if-le p xs)

  pub count_if-erase_first-le :
      (q p : A → Bool) (xs : List A) → count_if q (erase_first p xs) ≤ count_if q xs
  unfolding erase_first count_if
  count_if-erase_first-le q p [] = omega arith
  count_if-erase_first-le q p (x ∷ xs) = ground (arith, count_if-erase_first-le q p xs)

  pub count_if-remove_if-le :
      (q p : A → Bool) (xs : List A) → count_if q (remove_if p xs) ≤ count_if q xs
  unfolding remove_if count_if
  count_if-remove_if-le q p [] = omega arith
  count_if-remove_if-le q p (x ∷ xs) = ground (arith, count_if-remove_if-le q p xs)

  pub All-append {κ} : (P : A → Type κ) (xs ys : List A) → All P xs → All P ys → All P (xs ++ ys)
  All-append P [] ys a b = b
  All-append P (x ∷ xs) ys a b = (a.0, All-append P xs ys a.1 b)

  pub All-erase_first {κ} :
      (P : A → Type κ) (p : A → Bool) (xs : List A) → All P xs → All P (erase_first p xs)
  unfolding erase_first
  All-erase_first P p [] a = tt
  All-erase_first P p (x ∷ xs) a = elim (Bool-cases (p x)) [
    | inl e ↦ rw e a.1
    | inr e ↦ rw e (a.0, All-erase_first P p xs a.1)
  ]

  pub All-remove_if {κ} :
      (P : A → Type κ) (p : A → Bool) (xs : List A) → All P xs → All P (remove_if p xs)
  unfolding remove_if
  All-remove_if P p [] a = tt
  All-remove_if P p (x ∷ xs) a = elim (Bool-cases (p x)) [
    | inl e ↦ rw e (All-remove_if P p xs a.1)
    | inr e ↦ rw e (a.0, All-remove_if P p xs a.1)
  ]

  pub All-mono {κ κ'} :
      {P : A → Type κ} {Q : A → Type κ'} (f : (x : A) → P x → Q x) (xs : List A)
      → All P xs
      → All Q xs
  All-mono f [] a = tt
  All-mono f (x ∷ xs) a = (f x a.0, All-mono f xs a.1)

  -- Two tests that agree on the list give one count.
  pub count_if-congr :
      (p q : A → Bool) (xs : List A) → All (λ x. p x ≡ q x) xs → count_if p xs ≡ count_if q xs
  unfolding count_if
  count_if-congr p q [] a = refl
  count_if-congr p q (x ∷ xs) a = ground (arith, count_if-congr p q xs a.1)
