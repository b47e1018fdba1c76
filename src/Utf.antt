-- ===== src/Utf.antt =====
-- utils/mini/src/string_ex.cpp: `Str16ToStr8` and `Str8ToStr16`, the conversion between UTF-16 and
-- UTF-8 that every number and account name passes through at the service's boundary.
-- A byte is a number below 256, a unit one below 2 ^ 16. `x >> k` is `x / 2 ^ k`, `x & (2 ^ k - 1)`
-- is `x % 2 ^ k`; the bits that `|` joins never overlap, so it is `+`. A position in a string is the
-- list of what stands from there on.
pub mod Laws
pub mod RoundTrip
pub mod Refused
mod Tests
use telephony_call_manager_m.Prelude.{
  ℕ, zero, suc, ◌+◌, ◌-◌, ◌*◌, ◌/◌, ◌%◌, Bool, true, false, ◌&&◌, ◌||◌, List, [], ◌∷◌, ◌++◌, Option,
  none, some, ltb, leb, length, if◌then◌else◌,
}
use telephony_call_manager_m.Prelude.Eq.{◌==◌, nat_eq}
use telephony_call_manager_m.Types.{Bytes}

abbrev pub surrogate_high_begin : ℕ
surrogate_high_begin = 0xD800

abbrev pub surrogate_low_begin : ℕ
surrogate_low_begin = 0xDC00

abbrev pub surrogate_end : ℕ
surrogate_end = 0xDFFF

abbrev pub supplementary_begin : ℕ
supplementary_begin = 0x1_0000

abbrev pub code_point_max : ℕ
code_point_max = 0x10_FFFF

abbrev pub surrogate_size : ℕ
surrogate_size = 1024

abbrev pub is_high : ℕ → Bool
is_high unit = leb surrogate_high_begin unit && ltb unit surrogate_low_begin

abbrev pub is_low : ℕ → Bool
is_low unit = leb surrogate_low_begin unit && leb unit surrogate_end

-- `0x80 | (cp & 0x3F)`
abbrev tail_byte : ℕ → ℕ
tail_byte cp = 0x80 + cp % 64

-- What `AppendUtf8` pushes. Its caller's code points are at most 0x10FFFF.
unfoldable pub append_utf8 : ℕ → Bytes
append_utf8 cp =
    if ltb cp 0x80
    then cp ∷ []
    else if ltb cp 0x800
    then (0xC0 + cp / 64) ∷ tail_byte cp ∷ []
    else if ltb cp supplementary_begin
    then (0xE0 + cp / 4096) ∷ tail_byte (cp / 64) ∷ tail_byte cp ∷ []
    else (0xF0 + cp / 0x4_0000) ∷ tail_byte (cp / 4096) ∷ tail_byte (cp / 64) ∷ tail_byte cp ∷ []

-- The loop over the bytes after the lead.
unfoldable pub next_bytes : ℕ → ℕ → Bytes → Option (ℕ × Bytes)
next_bytes zero cp s = some (cp, s)
next_bytes (suc extra) cp [] = none
next_bytes (suc extra) cp (next ∷ s) =
    if next / 64 == 2 then next_bytes extra (cp * 64 + next % 64) s else none

abbrev pub is_refused : ℕ → ℕ → Bool
is_refused min_value cp =
    ltb cp min_value
    || ltb code_point_max cp
    || (leb surrogate_high_begin cp && leb cp surrogate_end)

abbrev pub check_value : ℕ → Option (ℕ × Bytes) → Option (ℕ × Bytes)
check_value min_value none = none
check_value min_value (some (cp, s)) = if is_refused min_value cp then none else some (cp, s)

unfoldable pub decode_long : ℕ → ℕ → ℕ → Bytes → Option (ℕ × Bytes)
decode_long extra min_value cp s =
    if ltb (length s) extra then none else check_value min_value (next_bytes extra cp s)

-- The code point that starts the string, with what follows it. The caller has seen a byte there.
unfoldable pub decode_utf8 : Bytes → Option (ℕ × Bytes)
decode_utf8 [] = none
decode_utf8 (lead ∷ s) =
    if ltb lead 0x80
    then some (lead, s)
    else if lead / 32 == 6
    then decode_long 1 0x80 (lead % 32) s
    else if lead / 16 == 14
    then decode_long 2 0x800 (lead % 16) s
    else if lead / 8 == 30
    then decode_long 3 supplementary_begin (lead % 8) s
    else none

-- `0x10000 + (((unit - 0xD800) << 10) | (low - 0xDC00))`
abbrev pub join : ℕ → ℕ → ℕ
join unit low =
    supplementary_begin
    + ((unit - surrogate_high_begin) * surrogate_size + (low - surrogate_low_begin))

abbrev pub before {ℓ} : {A : Type ℓ} → List A → Option (List A) → Option (List A)
before s none = none
before s (some t) = some (s ++ t)

-- The loop of `Str16ToStr8`; `none` is its `return ""`.
unfoldable pub encode_units : List ℕ → Option Bytes
encode_units [] = some []
encode_units (unit ∷ []) =
    if is_high unit then none else if is_low unit then none else some (append_utf8 unit)
encode_units (unit ∷ low ∷ rest) = elim (is_high unit) [
  | true ↦ elim (is_low low) [
    | true ↦ before (append_utf8 (join unit low)) (encode_units rest)
    | false ↦ none
  ]
  | false ↦ elim (is_low unit) [
    | true ↦ none
    | false ↦ before (append_utf8 unit) (encode_units (low ∷ rest))
  ]
]

abbrev pub or_empty {ℓ} : {A : Type ℓ} → Option (List A) → List A
or_empty none = []
or_empty (some s) = s

unfoldable pub str16_to_str8 : List ℕ → Bytes
str16_to_str8 s = or_empty (encode_units s)

-- The units that `Str8ToStr16` pushes for a code point.
unfoldable pub push_units : ℕ → List ℕ
push_units cp =
    if leb supplementary_begin cp
    then (surrogate_high_begin + (cp - supplementary_begin) / surrogate_size)
      ∷ (surrogate_low_begin + (cp - supplementary_begin) % surrogate_size)
      ∷ []
    else cp ∷ []

-- How the loop of `Str8ToStr16` left: with its output, by `return u""`, or out of fuel.
pub data Decoded : Type 0 where
  decoded : List ℕ → Decoded
  malformed stuck : Decoded

abbrev pub push_before : List ℕ → Decoded → Decoded
push_before s (decoded t) = decoded (s ++ t)
push_before s malformed = malformed
push_before s stuck = stuck

unfoldable pub decode_bytes : ℕ → Bytes → Decoded
decode_bytes fuel [] = decoded []
decode_bytes zero (b ∷ s) = stuck
decode_bytes (suc fuel) (b ∷ s) = elim (decode_utf8 (b ∷ s)) [
  | none ↦ malformed
  | some (cp, rest) ↦ push_before (push_units cp) (decode_bytes fuel rest)
]

-- What the function returns; `none` where the loop has not ended.
abbrev pub returned : Decoded → Option (List ℕ)
returned (decoded s) = some s
returned malformed = some []
returned stuck = none

-- Each round takes a byte at least.
unfoldable pub str8_to_str16 : Bytes → Option (List ℕ)
str8_to_str16 s = returned (decode_bytes (length s) s)
