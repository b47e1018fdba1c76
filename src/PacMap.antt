-- ===== src/PacMap.antt =====
-- utils/mini/src/pac_map.cpp: the typed, bounded map that carries the dial extras. The order of its
-- keys is never seen, so a list of entries stands for `std::map`.
pub mod Laws
mod Tests
use telephony_call_manager_m.Prelude.{
  ℕ, suc, Bool, true, false, not, Option, none, some, List, [], ◌∷◌, ◌++◌, if◌then◌else◌, leb,
  length,
}
use telephony_call_manager_m.Prelude.Eq.{◌==◌, nat_eq}
use telephony_call_manager_m.Prelude.Int.{ℤ, pos, int_eq}
use telephony_call_manager_m.Prelude.Search.{remove_if}
use telephony_call_manager_m.Types.{Bytes, bytes_eq}

pub data ValueType : Type 0 where
  int long boolean string : ValueType

abbrev pub type_beq : ValueType → ValueType → Bool
type_beq ValueType.int ValueType.int = true
type_beq ValueType.long ValueType.long = true
type_beq ValueType.boolean ValueType.boolean = true
type_beq ValueType.string ValueType.string = true
type_beq _ _ = false

pub record Value : Type 0 where
  pub type : ValueType
  pub number : ℤ
  pub text : Bytes

-- `values_`.
abbrev pub PacMap : Type 0
PacMap = List (Bytes × Value)

-- `MINI_PACMAP_MAX_ENTRIES`.
abbrev pub max_entries : ℕ
max_entries = 32

-- `values_.find(key)`.
unfoldable pub lookup : Bytes → PacMap → Option Value
lookup key [] = none
lookup key ((k, v) ∷ m) = if k == key then some v else lookup key m

-- `it->second = value`.
unfoldable pub assign : Bytes → Value → PacMap → PacMap
assign key v [] = []
assign key v ((k, w) ∷ m) =
    let rest = assign key v m in if k == key then (k, v) ∷ m else (k, w) ∷ rest

unfoldable pub put : Bytes → Value → PacMap → PacMap × Bool
unfolding lookup assign
put key v m = elim (lookup key m) [
  | some _ ↦ (assign key v m, true)
  | none ↦ if leb max_entries (length m) then (m, false) else (m ++ ((key, v) ∷ []), true)
]

unfoldable pub find : Bytes → ValueType → PacMap → Option Value
unfolding lookup
find key t m = elim (lookup key m) [
  | none ↦ none
  | some v ↦ if not (type_beq v.type t) then none else some v
]

abbrev pub int_entry : ℤ → Value
int_entry n = record { type = ValueType.int; number = n; text = [] }

abbrev pub long_entry : ℤ → Value
long_entry n = record { type = ValueType.long; number = n; text = [] }

abbrev pub boolean_entry : Bool → Value
boolean_entry b = record {
  type = ValueType.boolean;
  number = if b then pos 1 else pos 0;
  text = [];
}

abbrev pub string_entry : Bytes → Value
string_entry s = record { type = ValueType.string; number = pos 0; text = s }

unfoldable pub put_int_value : Bytes → ℤ → PacMap → PacMap
unfolding put
put_int_value key n m = (put key (int_entry n) m).0

unfoldable pub put_long_value : Bytes → ℤ → PacMap → PacMap
unfolding put
put_long_value key n m = (put key (long_entry n) m).0

unfoldable pub put_boolean_value : Bytes → Bool → PacMap → PacMap
unfolding put
put_boolean_value key b m = (put key (boolean_entry b) m).0

unfoldable pub put_string_value : Bytes → Bytes → PacMap → PacMap
unfolding put
put_string_value key s m = (put key (string_entry s) m).0

-- An `INT` entry holds an `int`, so the casts of the readers change nothing.
unfoldable pub get_int_value : Bytes → ℤ → PacMap → ℤ
unfolding find
get_int_value key default m = elim (find key ValueType.int m) [ none ↦ default | some v ↦ v.number ]

unfoldable pub get_long_value : Bytes → ℤ → PacMap → ℤ
unfolding find
get_long_value key default m = elim (find key ValueType.long m) [
  | none ↦ default
  | some v ↦ v.number
]

unfoldable pub get_boolean_value : Bytes → Bool → PacMap → Bool
unfolding find
get_boolean_value key default m = elim (find key ValueType.boolean m) [
  | none ↦ default
  | some v ↦ not (v.number == pos 0)
]

unfoldable pub get_string_value : Bytes → Bytes → PacMap → Bytes
unfolding find
get_string_value key default m = elim (find key ValueType.string m) [
  | none ↦ default
  | some v ↦ v.text
]

unfoldable pub has_key : Bytes → PacMap → Bool
unfolding lookup
has_key key m = elim (lookup key m) [ none ↦ false | some _ ↦ true ]

unfoldable pub remove : Bytes → PacMap → PacMap
unfolding remove_if
remove key m = remove_if (λ e. e.0 == key) m
