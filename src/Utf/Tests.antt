-- ===== src/Utf/Tests.antt =====
-- The conversions at concrete strings.
use telephony_call_manager_m.Prelude.{ℕ, ◌≡◌, refl, ◌⊎◌, List, [], ◌∷◌, some, arith}
use telephony_call_manager_m.Prelude.Search.{All}
use telephony_call_manager_m.Utf.{
  str16_to_str8, str8_to_str16, decode_bytes, decode_utf8, decode_long, next_bytes, encode_units,
}
use telephony_call_manager_m.Utf.Laws.{IsScalar}
use telephony_call_manager_m.Utf.RoundTrip.{utf8, utf16, str8_to_str16-str16_to_str8}
use telephony_call_manager_m.Utf.Refused.{str16_to_str8_cases, str8_to_str16_cases}

-- `1`, `é`, the euro sign and a supplementary character.
abbrev four : List ℕ
four = 0x31 ∷ 0xE9 ∷ 0x20AC ∷ 0x1F4DE ∷ []

-- An overlong slash and a surrogate.
overlong : str8_to_str16 (0x31 ∷ 0xC0 ∷ 0xAF ∷ []) ≡ some []
unfolding str8_to_str16 decode_bytes decode_utf8 decode_long next_bytes
overlong = refl

surrogate : str8_to_str16 (0xED ∷ 0xA0 ∷ 0x80 ∷ []) ≡ some []
unfolding str8_to_str16 decode_bytes decode_utf8 decode_long next_bytes
surrogate = refl

lone_high : str16_to_str8 (0x31 ∷ 0xD83D ∷ []) ≡ []
unfolding str16_to_str8 encode_units
lone_high = refl

str8_to_str16-str16_to_str8_example :
    (str16_to_str8 (utf16 four) ≡ utf8 four)
    × (str8_to_str16 (str16_to_str8 (utf16 four)) ≡ some (utf16 four))
str8_to_str16-str16_to_str8_example = str8_to_str16-str16_to_str8 four (omega arith)

str16_to_str8_cases_example :
    (str16_to_str8 (0x31 ∷ 0xD83D ∷ 0xDCDE ∷ []) ≡ [])
    ⊎ ((cps : List ℕ) × All IsScalar cps
        × (0x31 ∷ 0xD83D ∷ 0xDCDE ∷ [] ≡ utf16 cps)
        × (str16_to_str8 (0x31 ∷ 0xD83D ∷ 0xDCDE ∷ []) ≡ utf8 cps))
str16_to_str8_cases_example = str16_to_str8_cases (0x31 ∷ 0xD83D ∷ 0xDCDE ∷ []) (omega arith)

str8_to_str16_cases_example :
    (str8_to_str16 (0x31 ∷ 0xC3 ∷ 0xA9 ∷ []) ≡ some [])
    ⊎ ((cps : List ℕ) × All IsScalar cps
        × (0x31 ∷ 0xC3 ∷ 0xA9 ∷ [] ≡ utf8 cps)
        × (str8_to_str16 (0x31 ∷ 0xC3 ∷ 0xA9 ∷ []) ≡ some (utf16 cps)))
str8_to_str16_cases_example = str8_to_str16_cases (0x31 ∷ 0xC3 ∷ 0xA9 ∷ []) (omega arith)
