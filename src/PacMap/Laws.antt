-- ===== src/PacMap/Laws.antt =====
-- What is read back from the map, and its bound.
use telephony_call_manager_m.Prelude.{
  suc, ◌≤◌, ◌<◌, ◌≡◌, ◌⊎◌, inl, inr, refl, ap, sym, Bool, true, false, not, ◌&&◌, none, some, List,
  [], ◌∷◌, ◌++◌, arith, if◌then◌else◌, leb, Bool-cases, Option-cases, leb→le, length, length-append,
}
use mathlib.Core.Option.{none-ne-some}
use telephony_call_manager_m.Prelude.Eq.{◌==◌, ==→≡, ==_refl}
use telephony_call_manager_m.Prelude.Int.{ℤ, int_eq}
use telephony_call_manager_m.Prelude.Search.{remove_if, length-remove_if-le}
use telephony_call_manager_m.Types.{Bytes, bytes_eq}
use telephony_call_manager_m.PacMap.{
  PacMap, Value, max_entries, lookup, assign, put, find, remove, put_int_value, get_int_value,
  get_long_value, get_boolean_value, get_string_value, has_key, int_entry,
}

differ : (a b c : Bytes) → (a == b) ≡ true → (a == c) ≡ true → (b == c) ≡ true
differ a b c p q = rw (sym (==→≡ a b p)) q

sym_eq : (a b : Bytes) → (a == b) ≡ true → (b == a) ≡ true
sym_eq a b p = rw (==→≡ a b p) (==_refl b)

-- A key that differs from the first one differs from it also under the name that both have.
clash :
    {P : Type 0} (k key other : Bytes)
    → (k == key) ≡ false
    → (k == other) ≡ true
    → (key == other) ≡ true
    → P
clash k key other e f g =
    absurd (cc (e, differ other k key (sym_eq k other f) (sym_eq key other g)))

lookup-assign :
    (key other : Bytes) (v w : Value) (m : PacMap)
    → lookup key m ≡ some w
    → lookup other (assign key v m) ≡ (if key == other then some v else lookup other m)
unfolding lookup assign
lookup-assign key other v w [] h = ground (arith, h)
lookup-assign key other v w ((k, x) ∷ m) h = elim (Bool-cases (k == key)) [
  | inl e ↦
      rw (e, ==→≡ k key e)
        (elim (Bool-cases (key == other)) [ inl f ↦ rw f refl | inr f ↦ rw f refl ])
  | inr e ↦ rw e (elim (Bool-cases (k == other)) [
    | inl f ↦ elim (Bool-cases (key == other)) [
      | inl g ↦ clash k key other e f g
      | inr g ↦ rw (f, g) refl
    ]
    | inr f ↦ rw f (lookup-assign key other v w m (rw e at h))
  ])
]

lookup-append :
    (key other : Bytes) (v : Value) (m : PacMap)
    → lookup key m ≡ none
    → lookup other (m ++ ((key, v) ∷ [])) ≡ (if key == other then some v else lookup other m)
unfolding lookup
lookup-append key other v [] h = refl
lookup-append key other v ((k, x) ∷ m) h = elim (Bool-cases (k == key)) [
  | inl e ↦ absurd (none-ne-some x (sym (rw e at h)))
  | inr e ↦ elim (Bool-cases (k == other)) [
    | inl f ↦ elim (Bool-cases (key == other)) [
      | inl g ↦ clash k key other e f g
      | inr g ↦ rw (f, g) refl
    ]
    | inr f ↦ rw f (lookup-append key other v m (rw e at h))
  ]
]

-- A put that is refused: of a new key in a full map.
abbrev pub HasNoRoom : Bytes → PacMap → Type 0
HasNoRoom key m = (lookup key m ≡ none) × (max_entries ≤ length m)

-- What a put does: the refusal, and the change, each with its condition.
abbrev pub IsPut : Bytes → Value → PacMap → PacMap × Bool → Type 0
IsPut key v m (m', r) =
    (HasNoRoom key m × (r ≡ false) × (m' ≡ m))
    ⊎ (¬ HasNoRoom key m
        × (r ≡ true)
        × ((other : Bytes) → lookup other m' ≡ (if key == other then some v else lookup other m)))

no_limit : (m : PacMap) → leb max_entries (length m) ≡ false → ¬ (max_entries ≤ length m)
no_limit m f full = ground (arith, f, full)

-- A put is refused and changes nothing exactly when its key is new and the map has 32 entries or more;
-- otherwise it succeeds, the key has the value and every other key has what it had.
pub put-IsPut : (key : Bytes) (v : Value) (m : PacMap) → IsPut key v m (put key v m)
unfolding put
put-IsPut key v m = elim (Option-cases (lookup key m)) [
  | inr (w, e) ↦
      rw (e, put)
        (inr (λ full. none-ne-some w (sym full.0), refl, λ other. lookup-assign key other v w m e))
  | inl e ↦ elim (Bool-cases (leb max_entries (length m))) [
    | inl f ↦ rw (e, f, put) (inl ((refl, leb→le _ _ f), refl, refl))
    | inr f ↦
        rw (e, f, put)
          (inr (λ full. no_limit m f full.1, refl, λ other. lookup-append key other v m e))
  ]
]

length-assign : (key : Bytes) (v : Value) (m : PacMap) → length (assign key v m) ≡ length m
unfolding assign
length-assign key v [] = refl
length-assign key v ((k, w) ∷ m) = elim (Bool-cases (k == key)) [
  | inl e ↦ rw e refl
  | inr e ↦ rw e (ap suc (length-assign key v m))
]

-- The bound holds whatever callers put and remove.
pub length-put :
    (key : Bytes) (v : Value) (m : PacMap)
    → length m ≤ max_entries
    → length (put key v m).0 ≤ max_entries
unfolding put
length-put key v m le = elim (Option-cases (lookup key m)) [
  | inr (w, e) ↦ rw (e, put, length-assign key v m) le
  | inl e ↦ elim (Bool-cases (leb max_entries (length m))) [
    | inl f ↦ rw (e, f, put) le
    | inr f ↦ rw (e, f, put, length-append m ((key, v) ∷ [])) (ground (arith, f))
  ]
]

-- One request on the map.
pub data Request : Type 0 where
  puts : Bytes → Value → Request
  removes : Bytes → Request
  clears : Request

pub run : List Request → PacMap → PacMap
run [] m = m
run (puts key v ∷ rs) m = run rs (put key v m).0
run (removes key ∷ rs) m = run rs (remove key m)
run (clears ∷ rs) m = run rs []

-- Whatever is put, removed and cleared, a map that has at most 32 entries never gets more.
pub run-bounded :
    (rs : List Request) (m : PacMap) → length m ≤ max_entries → length (run rs m) ≤ max_entries
unfolding run remove
run-bounded [] m le = le
run-bounded (puts key v ∷ rs) m le = run-bounded rs _ (length-put key v m le)
run-bounded (removes key ∷ rs) m le =
    run-bounded rs _ (omega (arith, length-remove_if-le {0} (λ e. e.0 == key) m, le))
run-bounded (clears ∷ rs) m le = run-bounded rs [] (omega arith)

-- In a map with room, an `int` that is put is read back under its key, and every other key is read as
-- it was before.
pub get_int-put :
    (key other : Bytes) (n default : ℤ) (m : PacMap)
    → length m < max_entries
    → get_int_value other default (put_int_value key n m)
      ≡ (if key == other then n else get_int_value other default m)
unfolding put_int_value get_int_value find
get_int-put key other n default m room = elim (put-IsPut key (int_entry n) m) [
  | inl ((_, full), _, _) ↦ absurd (omega (arith, room, full))
  | inr (_, _, at_key) ↦
      rw (at_key other, get_int_value)
        (elim (Bool-cases (key == other)) [ inl e ↦ rw e refl | inr e ↦ rw e refl ])
]

-- In a map with room, a key that is put as an `int` yields the default when it is read as a `long`, a
-- Boolean or a string.
pub get_other_type :
    (key : Bytes) (n default_long : ℤ) (default_bool : Bool) (default_string : Bytes) (m : PacMap)
    → length m < max_entries
    → let m' = put_int_value key n m in
      (get_long_value key default_long m' ≡ default_long)
      × (get_boolean_value key default_bool m' ≡ default_bool)
      × (get_string_value key default_string m' ≡ default_string)
unfolding put_int_value get_long_value get_boolean_value get_string_value find
get_other_type key n default_long default_bool default_string m room =
    elim (put-IsPut key (int_entry n) m) [
      | inl ((_, full), _, _) ↦ absurd (omega (arith, room, full))
      | inr (_, _, at_key) ↦
          rw (at_key key, ==_refl key, get_long_value, get_boolean_value, get_string_value)
            (refl, refl, refl)
    ]

lookup-remove :
    (key other : Bytes) (m : PacMap)
    → lookup other (remove key m) ≡ (if key == other then none else lookup other m)
unfolding lookup remove remove_if
lookup-remove key other [] = elim (Bool-cases (key == other)) [
  | inl e ↦ rw e refl
  | inr e ↦ rw e refl
]
lookup-remove key other ((k, v) ∷ m) = elim (Bool-cases (k == key)) [
  | inl e ↦
      rw (e, lookup-remove key other m, ==→≡ k key e)
        (elim (Bool-cases (key == other)) [ inl f ↦ rw f refl | inr f ↦ rw f refl ])
  | inr e ↦ elim (Bool-cases (k == other)) [
    | inl f ↦ elim (Bool-cases (key == other)) [
      | inl g ↦ clash k key other e f g
      | inr g ↦ rw (e, f, g) refl
    ]
    | inr f ↦ rw (e, f) (lookup-remove key other m)
  ]
]

-- A removed key is gone, and no other key is.
pub has_key-remove :
    (key other : Bytes) (m : PacMap)
    → has_key other (remove key m) ≡ not (key == other) && has_key other m
unfolding has_key
has_key-remove key other m =
    rw (lookup-remove key other m, has_key)
      (elim (Bool-cases (key == other)) [ inl e ↦ rw e refl | inr e ↦ rw e refl ])
