-- ===== src/Utf/Laws.antt =====
-- One code point through `AppendUtf8` and `DecodeUtf8`, and through the units of UTF-16.
use mathlib.Core.List.{append-nil}
use telephony_call_manager_m.Prelude.{
  ℕ, ◌+◌, ◌-◌, ◌/◌, ◌%◌, ◌≤◌, ◌<◌, ◌≡◌, refl, ap, ◌∙◌, ◌⊎◌, inl, inr, true, false, List, [], ◌∷◌,
  ◌++◌, some, arith, leb, Bool-cases,
}
use telephony_call_manager_m.Prelude.Search.{All}
use telephony_call_manager_m.Types.{Bytes}
use telephony_call_manager_m.Utf.{
  surrogate_high_begin, surrogate_end, code_point_max, supplementary_begin, append_utf8, next_bytes,
  decode_long, decode_utf8, encode_units, push_units, before, is_high, is_low, join, surrogate_size,
  surrogate_low_begin,
}

-- A code point that is not a surrogate.
abbrev pub IsScalar : ℕ → Type 0
IsScalar cp = (cp < surrogate_high_begin) ⊎ ((surrogate_end < cp) × (cp ≤ code_point_max))

abbrev pub IsByte : ℕ → Type 0
IsByte b = b < 256

pub decode_utf8-append_utf8 :
    (cp : ℕ) (s : Bytes) → IsScalar cp → decode_utf8 (append_utf8 cp ++ s) ≡ some (cp, s)
unfolding decode_utf8 append_utf8 decode_long next_bytes
decode_utf8-append_utf8 cp s h = ground (arith, h)

pub decode_utf8-eq-some :
    (s : Bytes) {cp : ℕ} {rest : Bytes}
    → All IsByte s
    → decode_utf8 s ≡ some (cp, rest)
    → IsScalar cp × (s ≡ append_utf8 cp ++ rest)
unfolding decode_utf8 append_utf8 decode_long next_bytes
decode_utf8-eq-some [] v h = cc
decode_utf8-eq-some (a ∷ []) v h = ground (arith, v, h)
decode_utf8-eq-some (a ∷ b ∷ []) v h = ground (arith, v, h)
decode_utf8-eq-some (a ∷ b ∷ c ∷ []) v h = ground (arith, v, h)
decode_utf8-eq-some (a ∷ b ∷ c ∷ d ∷ s) v h = ground (arith, v, h)

-- The two halves of a supplementary code point give it back.
join_halves :
    (cp : ℕ)
    → supplementary_begin ≤ cp
    → cp ≤ code_point_max
    → let k = cp - supplementary_begin in
      (is_high (surrogate_high_begin + k / surrogate_size) ≡ true)
      × (is_low (surrogate_low_begin + k % surrogate_size) ≡ true)
      × (join (surrogate_high_begin + k / surrogate_size) (surrogate_low_begin + k % surrogate_size)
          ≡ cp)
join_halves cp lo hi = ground arith

plain_unit :
    (cp : ℕ) → IsScalar cp → cp < supplementary_begin → (is_high cp ≡ false) × (is_low cp ≡ false)
plain_unit cp h lt = ground (arith, h)

pub encode_units_pair :
    (a b : ℕ) (u : List ℕ)
    → is_high a ≡ true
    → is_low b ≡ true
    → encode_units (a ∷ b ∷ u) ≡ before (append_utf8 (join a b)) (encode_units u)
unfolding encode_units
encode_units_pair a b u p q = rw (p, q, encode_units) refl

pub encode_units_plain :
    (a : ℕ) (u : List ℕ)
    → is_high a ≡ false
    → is_low a ≡ false
    → encode_units (a ∷ u) ≡ before (append_utf8 a) (encode_units u)
unfolding encode_units
encode_units_plain a [] p q = rw (p, q, append-nil (append_utf8 a)) refl
encode_units_plain a (x ∷ u) p q = rw (p, q, encode_units) refl

pub encode_units-push_units :
    (cp : ℕ) (u : List ℕ)
    → IsScalar cp
    → encode_units (push_units cp ++ u) ≡ before (append_utf8 cp) (encode_units u)
unfolding push_units
encode_units-push_units cp u h = elim (Bool-cases (leb supplementary_begin cp)) [
  | inl e ↦
      let (a, b, c) = join_halves cp (ground (arith, e)) (ground (arith, e, h)) in
      rw e (encode_units_pair _ _ u a b ∙ ap (λ k. before (append_utf8 k) (encode_units u)) c)
  | inr e ↦ let (a, b) = plain_unit cp h (ground (arith, e)) in rw e (encode_units_plain cp u a b)
]

pub push_units-join :
    (a b : ℕ) (u : List ℕ)
    → is_high a ≡ true
    → is_low b ≡ true
    → IsScalar (join a b) × (push_units (join a b) ++ u ≡ a ∷ b ∷ u)
unfolding push_units
push_units-join a b u h l = ground (arith, h, l)
