-- ===== src/Utf/RoundTrip.antt =====
-- The two conversions against the plain encodings of a list of code points.
use telephony_call_manager_m.Prelude.{
  ℕ, zero, suc, ◌≤◌, ◌<◌, ◌≡◌, refl, ap, ◌∙◌, List, [], ◌∷◌, ◌++◌, some, arith, length,
  length-append,
}
use telephony_call_manager_m.Prelude.Search.{All}
use telephony_call_manager_m.Types.{Bytes}
use telephony_call_manager_m.Utf.{
  append_utf8, decode_utf8, encode_units, push_units, before, str16_to_str8, str8_to_str16,
  decode_bytes, decoded, push_before,
}
use telephony_call_manager_m.Utf.Laws.{IsScalar, decode_utf8-append_utf8, encode_units-push_units}

-- The code points' bytes, one after the other.
unfoldable pub utf8 : List ℕ → Bytes
utf8 [] = []
utf8 (cp ∷ cps) = append_utf8 cp ++ utf8 cps

-- The code points' units, one after the other.
unfoldable pub utf16 : List ℕ → List ℕ
utf16 [] = []
utf16 (cp ∷ cps) = push_units cp ++ utf16 cps

pub encode_units-utf16 :
    (cps : List ℕ) → All IsScalar cps → encode_units (utf16 cps) ≡ some (utf8 cps)
unfolding utf16 utf8 encode_units
encode_units-utf16 [] v = refl
encode_units-utf16 (cp ∷ cps) v =
    encode_units-push_units cp (utf16 cps) v.0
    ∙ ap (before (append_utf8 cp)) (encode_units-utf16 cps v.1)

-- A code point takes a byte at least.
pub append_utf8_ne : (cp : ℕ) → 0 < length (append_utf8 cp)
unfolding append_utf8
append_utf8_ne cp = ground arith

pub decode_bytes_step :
    (fuel : ℕ) (s : Bytes) {cp : ℕ} {rest : Bytes}
    → decode_utf8 s ≡ some (cp, rest)
    → decode_bytes (suc fuel) s ≡ push_before (push_units cp) (decode_bytes fuel rest)
unfolding decode_bytes decode_utf8
decode_bytes_step fuel [] e = cc
decode_bytes_step fuel (b ∷ s) e = rw (e, decode_bytes) refl

pub decode_bytes-utf8 :
    (fuel : ℕ) (cps : List ℕ)
    → All IsScalar cps
    → length (utf8 cps) ≤ fuel
    → decode_bytes fuel (utf8 cps) ≡ decoded (utf16 cps)
unfolding utf8 utf16
decode_bytes-utf8 fuel [] v le = unfold decode_bytes in refl
decode_bytes-utf8 zero (cp ∷ cps) v le =
    absurd (omega (arith, append_utf8_ne cp, length-append (append_utf8 cp) (utf8 cps)))
decode_bytes-utf8 (suc fuel) (cp ∷ cps) v le =
    decode_bytes_step fuel _ (decode_utf8-append_utf8 cp (utf8 cps) v.0)
    ∙ ap (push_before (push_units cp)) (
        decode_bytes-utf8 fuel cps v.1
          (omega (arith, append_utf8_ne cp, length-append (append_utf8 cp) (utf8 cps))))

-- On the units of any list of code points that are not surrogates, `Str16ToStr8` gives the code
-- points' bytes, and on those `Str8ToStr16` gives the units back.
pub str8_to_str16-str16_to_str8 :
    (cps : List ℕ)
    → All IsScalar cps
    → (str16_to_str8 (utf16 cps) ≡ utf8 cps)
      × (str8_to_str16 (str16_to_str8 (utf16 cps)) ≡ some (utf16 cps))
unfolding str16_to_str8 str8_to_str16
str8_to_str16-str16_to_str8 cps v =
    let e = encode_units-utf16 cps v in
    (rw e refl, rw (e, decode_bytes-utf8 (length (utf8 cps)) cps v (omega arith)) refl)
