-- ===== src/Prelude/IdSet.antt =====
-- `std::set<int32_t>`: the elements in increasing order, each once.
use mathlib.Core.Path.{◌≡◌, ◌∙◌, refl, ap, subst}
use mathlib.Core.Logic.{inl, inr}
use mathlib.Core.Bool.{Bool, true, false, not, ◌&&◌, ◌||◌}
use mathlib.Core.List.{List, [], ◌∷◌}
use native.Mathlib.Omega.{arith}
use telephony_call_manager_m.Prelude.Tests.{if◌then◌else◌, Bool-cases}
use telephony_call_manager_m.Prelude.Eq.{◌==◌, ==→≡, ==_refl}
use telephony_call_manager_m.Prelude.Int.{ℤ, ltb_ℤ, int_eq}
use telephony_call_manager_m.Prelude.Search.{All, All-mono, All-erase_first, any_if, erase_first}

unfoldable pub contains : ℤ → List ℤ → Bool
unfolding any_if
contains x s = any_if (λ y. y == x) s

unfoldable pub insert : ℤ → List ℤ → List ℤ
insert x [] = x ∷ []
insert x (y ∷ s) =
    let rest = insert x s in if ltb_ℤ x y then x ∷ y ∷ s else if x == y then y ∷ s else y ∷ rest

unfoldable pub erase : ℤ → List ℤ → List ℤ
unfolding erase_first
erase x s = erase_first (λ y. y == x) s

abbrev Below : ℤ → List ℤ → Type 0
Below x = All (λ y. ltb_ℤ x y ≡ true)

abbrev pub Sorted : List ℤ → Type 0
Sorted [] = Unit
Sorted (x ∷ s) = Below x s × Sorted s

ltb_ℤ-trans : (a b c : ℤ) → ltb_ℤ a b ≡ true → ltb_ℤ b c ≡ true → ltb_ℤ a c ≡ true
ltb_ℤ-trans a b c p q = ground (arith, p, q)

ltb_ℤ-ne : (a b : ℤ) → ltb_ℤ a b ≡ true → (b == a) ≡ false
ltb_ℤ-ne a b p = ground (arith, p)

ltb_ℤ_total : (a b : ℤ) → ltb_ℤ a b ≡ false → (a == b) ≡ false → ltb_ℤ b a ≡ true
ltb_ℤ_total a b p q = ground (arith, p, q)

Below-insert : (x y : ℤ) (s : List ℤ) → ltb_ℤ y x ≡ true → Below y s → Below y (insert x s)
unfolding insert
Below-insert x y [] lt b = (lt, tt)
Below-insert x y (z ∷ s) lt b = elim (Bool-cases (ltb_ℤ x z)) [
  | inl e ↦ rw e (lt, b)
  | inr e ↦ elim (Bool-cases (x == z)) [
    | inl f ↦ rw (e, f) b
    | inr f ↦ rw (e, f) (b.0, Below-insert x y s lt b.1)
  ]
]

pub Sorted-insert : (x : ℤ) (s : List ℤ) → Sorted s → Sorted (insert x s)
unfolding insert
Sorted-insert x [] o = (tt, tt)
Sorted-insert x (y ∷ s) o = elim (Bool-cases (ltb_ℤ x y)) [
  | inl e ↦ rw e ((e, All-mono (λ z lt. ltb_ℤ-trans x y z e lt) s o.0), o)
  | inr e ↦ elim (Bool-cases (x == y)) [
    | inl f ↦ rw (e, f) o
    | inr f ↦ rw (e, f) (Below-insert x y s (ltb_ℤ_total x y e f) o.0, Sorted-insert x s o.1)
  ]
]

pub Sorted-erase : (x : ℤ) (s : List ℤ) → Sorted s → Sorted (erase x s)
unfolding erase
Sorted-erase x [] o = tt
Sorted-erase x (y ∷ s) o = elim (Bool-cases (y == x)) [
  | inl e ↦ rw e o.1
  | inr e ↦ rw e (All-erase_first _ (λ z. z == x) s o.0, Sorted-erase x s o.1)
]

pub contains-insert : (y x : ℤ) (s : List ℤ) → contains y (insert x s) ≡ (x == y) || contains y s
unfolding contains insert
contains-insert y x [] = ground arith
contains-insert y x (z ∷ s) = elim (Bool-cases (ltb_ℤ x z)) [
  | inl e ↦ rw e (ground arith)
  | inr e ↦ elim (Bool-cases (x == z)) [
    | inl f ↦ rw (e, f, ==→≡ x z f) (ground arith)
    | inr f ↦ rw (e, f, contains-insert y x s) (ground arith)
  ]
]

Below-contains : (x : ℤ) (s : List ℤ) → Below x s → contains x s ≡ false
unfolding contains
Below-contains x [] b = refl
Below-contains x (y ∷ s) b = rw (ltb_ℤ-ne x y b.0) (Below-contains x s b.1)

ne_left : (x y z : ℤ) → (z == x) ≡ true → (x == y) ≡ false → (z == y) ≡ false
ne_left x y z e f = ground (arith, e, f)

ne_sym : (x y : ℤ) → (x == y) ≡ false → (y == x) ≡ false
ne_sym x y f = ground (arith, f)

pub contains-erase :
    (y x : ℤ) (s : List ℤ) → Sorted s → contains y (erase x s) ≡ not (x == y) && contains y s
unfolding contains erase
contains-erase y x [] o = ground arith
contains-erase y x (z ∷ s) o = elim (Bool-cases (z == x)) [
  | inl e ↦ rw e (elim (Bool-cases (x == y)) [
    | inl f ↦
        rw f (subst (λ k. contains k s ≡ false) (==→≡ z x e ∙ ==→≡ x y f) (Below-contains z s o.0))
    | inr f ↦ rw (f, ne_left x y z e f) refl
  ])
  | inr e ↦ rw (e, contains-erase y x s o.1) (ground (arith, ==→≡ z y, ==→≡ x y))
]

pub erase-insert : (x : ℤ) (s : List ℤ) → contains x s ≡ false → erase x (insert x s) ≡ s
unfolding contains erase insert
erase-insert x [] h = ground arith
erase-insert x (y ∷ s) h = elim (Bool-cases (ltb_ℤ x y)) [
  | inl e ↦ rw (e, ==_refl x) refl
  | inr e ↦ elim (Bool-cases (x == y)) [
    | inl f ↦ absurd (ground (arith, f, h))
    | inr f ↦ rw (e, f, ne_sym x y f) (ap (λ r. y ∷ r) (erase-insert x s (rw (ne_sym x y f) at h)))
  ]
]
