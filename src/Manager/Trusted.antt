-- ===== src/Manager/Trusted.antt =====
-- utils/mini/src/call_permission_adapter.cpp: what the callers in the image may do, fixed when it is built.
use telephony_call_manager_m.Prelude.{
  ℕ, zero, suc, ◌≤◌, ◌≡◌, refl, Bool, true, false, not, ◌&&◌, ◌||◌, List, [], ◌∷◌, Option, none,
  some, if◌then◌else◌, length, arith, Bool-cases, Option-cases, inl, inr,
}
use mathlib.Core.Option.{some-injective}
use telephony_call_manager_m.Prelude.Eq.{◌==◌, nat_eq}
use telephony_call_manager_m.Types.{Bytes, bytes_eq}
use telephony_call_manager_m.Manager.Names.{Permission, name_of}

-- `TrustModel`. The strings hold no byte 0.
pub record Trust : Type 0 where
  pub granted : Bytes
  pub is_system_app : Bool
  pub bundle_name : Bytes

abbrev pub separator : ℕ
separator = 59

-- Up to the next separator, and what follows it, if there is one.
unfoldable pub next_item : Bytes → Bytes × Option Bytes
next_item [] = ([], none)
next_item (c ∷ s) =
    let (item, rest) = next_item s in if c == separator then ([], some s) else (c ∷ item, rest)

-- The loop of `ListContains`, which stands at the start of an item, or at the end of the list.
unfoldable pub contains_from : ℕ → Bytes → Bytes → Bool
unfolding next_item
contains_from zero item s = false
contains_from (suc n) item [] = false
contains_from (suc n) item (c ∷ s) =
    if (next_item (c ∷ s)).0 == item
    then true
    else elim (next_item (c ∷ s)).1 [ none ↦ false | some after ↦ contains_from n item after ]

unfoldable pub list_contains : Bytes → Bytes → Bool
unfolding contains_from
list_contains granted [] = false
list_contains granted (c ∷ item) = contains_from (suc (length granted)) (c ∷ item) granted

unfoldable pub check_permission : Trust → Permission → Bool
unfolding list_contains
check_permission t p = list_contains t.granted (name_of p)

-- The items of a list, all of them.
abbrev pub with_first : ℕ → List Bytes → List Bytes
with_first c [] = (c ∷ []) ∷ []
with_first c (x ∷ xs) = (c ∷ x) ∷ xs

unfoldable pub items : Bytes → List Bytes
items [] = [] ∷ []
items (c ∷ s) = if c == separator then [] ∷ items s else with_first c (items s)

abbrev pub is_one_of : Bytes → List Bytes → Bool
is_one_of x [] = false
is_one_of x (y ∷ ys) = y == x || is_one_of x ys

items_of : Bytes × Option Bytes → List Bytes
items_of (x, none) = x ∷ []
items_of (x, some s) = x ∷ items s

first_of : (c : ℕ) (r : Bytes × Option Bytes) → with_first c (items_of r) ≡ items_of (c ∷ r.0, r.1)
unfolding items_of
first_of c (x, none) = refl
first_of c (x, some s) = refl

none_left :
    (r : Bytes × Option Bytes) (item : Bytes)
    → r.1 ≡ none
    → (if r.0 == item then true else false) ≡ is_one_of item (items_of r)
unfolding items_of
none_left (x, none) item e = ground arith
none_left (x, some s) item e = cc

some_left :
    (r : Bytes × Option Bytes) (item rest : Bytes)
    → r.1 ≡ some rest
    → (if r.0 == item then true else is_one_of item (items rest)) ≡ is_one_of item (items_of r)
unfolding items_of
some_left (x, none) item rest e = cc
some_left (x, some s) item rest e =
    let f : s ≡ rest = some-injective s rest e in rw f (ground arith)

items-next_item : (s : Bytes) → items s ≡ items_of (next_item s)
unfolding items next_item items_of
items-next_item [] = refl
items-next_item (c ∷ s) = elim (Bool-cases (c == separator)) [
  | inl e ↦ rw e refl
  | inr e ↦ rw (e, items-next_item s) (first_of c (next_item s))
]

length-next_item : (s rest : Bytes) → (next_item s).1 ≡ some rest → suc (length rest) ≤ length s
unfolding next_item
length-next_item [] rest e = cc
length-next_item (c ∷ s) rest e = elim (Bool-cases (c == separator)) [
  | inl f ↦ let g : s ≡ rest = some-injective s rest (rw f at e) in rw g (omega arith)
  | inr f ↦ omega (arith, length-next_item s rest (rw f at e))
]

contains_from_lem :
    (n x : ℕ) (item s : Bytes)
    → suc (length s) ≤ n
    → contains_from n (x ∷ item) s ≡ is_one_of (x ∷ item) (items s)
unfolding contains_from
contains_from_lem zero x item s le = absurd (omega arith)
contains_from_lem (suc n) x item [] le = unfold items in refl
contains_from_lem (suc n) x item (c ∷ s) le = elim (Option-cases (next_item (c ∷ s)).1) [
  | inl e ↦
      rw (items-next_item (c ∷ s), e, contains_from) (none_left (next_item (c ∷ s)) (x ∷ item) e)
  | inr (rest, e) ↦
      let shorter = length-next_item (c ∷ s) rest e in
      rw
        (
          items-next_item (c ∷ s),
          e,
          contains_from,
          contains_from_lem n x item rest (omega (arith, shorter)),
        )
        (some_left (next_item (c ∷ s)) (x ∷ item) rest e)
]

-- A permission is granted exactly when its name is not empty and is one of the items between the
-- separators of the build's list.
pub list_contains_lem :
    (granted item : Bytes)
    → list_contains granted item ≡ (not (item == []) && is_one_of item (items granted))
unfolding list_contains
list_contains_lem granted [] = refl
list_contains_lem granted (x ∷ item) =
    contains_from_lem (suc (length granted)) x item granted (omega arith)
