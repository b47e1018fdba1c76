-- ===== src/Prelude/Eq.antt =====
-- `==` for every type that has an instance. The enums add theirs.
use mathlib.Core.Path.{◌≡◌, refl}
use mathlib.Core.Logic.{◌↔◌}
use mathlib.Core.Bool.{Bool, true}
use Prim.Native.Nat.{ℕ}
use telephony_call_manager_m.Prelude.Tests.{nat_beq, nat_beq_iff}

-- A test that decides whether two values are equal.
pub record BoolEq {ℓ} (A : Type ℓ) : Type ℓ where
  pub same : A → A → Bool
  pub same_iff : (x y : A) → (same x y ≡ true) ↔ (x ≡ y)

instance abbrev pub nat_eq : BoolEq ℕ
nat_eq = record { same = nat_beq; same_iff = nat_beq_iff }

module _ {ℓ} {A : Type ℓ} ⦃d : BoolEq A⦄ where
  infix 50 ◌==◌
  abbrev pub ◌==◌ : A → A → Bool
  x == y = d.same x y

  pub ==→≡ : (x y : A) → (x == y) ≡ true → x ≡ y
  ==→≡ x y = (d.same_iff x y).0

  pub ==_refl : (x : A) → (x == x) ≡ true
  ==_refl x = (d.same_iff x x).1 refl
