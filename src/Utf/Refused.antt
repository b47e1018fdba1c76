-- ===== src/Utf/Refused.antt =====
-- What the two conversions refuse: every string that is not the encoding of code points. And the
-- end of the loop of `Str8ToStr16`.
use telephony_call_manager_m.Prelude.{
  ℕ, zero, suc, ◌≤◌, ◌<◌, ◌^◌, ◌≡◌, ◌≢◌, refl, ap, ◌∙◌, sym, subst, ◌⊎◌, inl, inr, true, false,
  List, [], ◌∷◌, ◌++◌, none, some, arith, length, length-append, Bool-cases, Option-cases,
}
use telephony_call_manager_m.Prelude.Search.{All}
use telephony_call_manager_m.Types.{Bytes}
use telephony_call_manager_m.Utf.{
  append_utf8, decode_utf8, encode_units, push_units, before, or_empty, str16_to_str8,
  str8_to_str16, decode_bytes, Decoded, decoded, malformed, stuck, push_before, returned, is_high,
  is_low, join,
}
use telephony_call_manager_m.Utf.Laws.{
  IsScalar, IsByte, decode_utf8-eq-some, encode_units_pair, encode_units_plain, push_units-join,
}
use telephony_call_manager_m.Utf.RoundTrip.{
  utf8, utf16, append_utf8_ne, decode_bytes_step, encode_units-utf16,
}

abbrev pub IsUnit : ℕ → Type 0
IsUnit x = x < 2 ^ 16

-- The string is the encoding of code points.
abbrev pub Encodes : (List ℕ → List ℕ) → List ℕ → Type 0
Encodes enc s = (cps : List ℕ) × All IsScalar cps × (s ≡ enc cps)

plain_IsScalar :
    (a : ℕ) → IsUnit a → is_high a ≡ false → is_low a ≡ false → IsScalar a × (push_units a ≡ a ∷ [])
unfolding push_units
plain_IsScalar a v h l = ground (arith, v, h, l)

-- A string is refused, or is what `encode_units` reads.
abbrev Read : List ℕ → Type 0
Read u = (encode_units u ≡ none) ⊎ Encodes utf16 u

Read-plain :
    (a : ℕ) (u : List ℕ) → IsUnit a → is_high a ≡ false → is_low a ≡ false → Read u → Read (a ∷ u)
unfolding utf16
Read-plain a u v h l (inl e) = inl (encode_units_plain a u h l ∙ ap (before (append_utf8 a)) e)
Read-plain a u v h l (inr (cps, w, e)) =
    let (sc, p) = plain_IsScalar a v h l in inr (a ∷ cps, (sc, w), rw (p, e) refl)

Read-pair : (a b : ℕ) (u : List ℕ) → is_high a ≡ true → is_low b ≡ true → Read u → Read (a ∷ b ∷ u)
unfolding utf16
Read-pair a b u h l (inl e) =
    inl (encode_units_pair a b u h l ∙ ap (before (append_utf8 (join a b))) e)
Read-pair a b u h l (inr (cps, w, e)) =
    let (sc, p) = push_units-join a b u h l in
    inr (join a b ∷ cps, (sc, w), sym p ∙ ap (λ t. push_units (join a b) ++ t) e)

encode_units_cases : (u : List ℕ) → All IsUnit u → Read u
unfolding encode_units utf16
encode_units_cases [] v = inr ([], tt, refl)
encode_units_cases (a ∷ []) v = elim (Bool-cases (is_high a)) [
  | inl h ↦ inl (rw (h, encode_units) refl)
  | inr h ↦ elim (Bool-cases (is_low a)) [
    | inl l ↦ inl (rw (h, l, encode_units) refl)
    | inr l ↦ Read-plain a [] v.0 h l (inr ([], tt, refl))
  ]
]
encode_units_cases (a ∷ b ∷ u) v = elim (Bool-cases (is_high a)) [
  | inl h ↦ elim (Bool-cases (is_low b)) [
    | inl l ↦ Read-pair a b u h l (encode_units_cases u v.1.1)
    | inr l ↦ inl (rw (h, l, encode_units) refl)
  ]
  | inr h ↦ elim (Bool-cases (is_low a)) [
    | inl l ↦ inl (rw (h, l, encode_units) refl)
    | inr l ↦ Read-plain a (b ∷ u) v.0 h l (encode_units_cases (b ∷ u) v.1)
  ]
]

decode_bytes_malformed :
    (fuel : ℕ) (b : ℕ) (s : Bytes)
    → decode_utf8 (b ∷ s) ≡ none
    → decode_bytes (suc fuel) (b ∷ s) ≡ malformed
unfolding decode_bytes
decode_bytes_malformed fuel b s e = rw (e, decode_bytes) refl

All-suffix : (s t : Bytes) → All IsByte (s ++ t) → All IsByte t
All-suffix [] t v = v
All-suffix (b ∷ s) t v = All-suffix s t v.1

-- A round leaves a shorter string of bytes.
rest_shorter :
    (b : ℕ) (s : Bytes) {cp : ℕ} {rest : Bytes}
    → All IsByte (b ∷ s)
    → decode_utf8 (b ∷ s) ≡ some (cp, rest)
    → All IsByte rest × (length rest ≤ length s)
rest_shorter b s {cp} {rest} v e =
    let (sc, p) = decode_utf8-eq-some (b ∷ s) v e in
    (
      All-suffix (append_utf8 cp) rest (subst (All IsByte) p v),
      omega (arith, ap length p, length-append (append_utf8 cp) rest, append_utf8_ne cp),
    )

-- The loop ends: the string is refused, or is the encoding of code points whose units it gives.
abbrev Ends : Bytes → Decoded → Type 0
Ends s d =
    (d ≡ malformed)
    ⊎ ((cps : List ℕ) × All IsScalar cps × (s ≡ utf8 cps) × (d ≡ decoded (utf16 cps)))

Ends-step :
    (cp : ℕ) (rest : Bytes) (d : Decoded)
    → IsScalar cp
    → Ends rest d
    → Ends (append_utf8 cp ++ rest) (push_before (push_units cp) d)
unfolding utf8 utf16
Ends-step cp rest d sc (inl e) = inl (ap (push_before (push_units cp)) e)
Ends-step cp rest d sc (inr (cps, w, e, f)) =
    inr (cp ∷ cps, (sc, w), ap (λ t. append_utf8 cp ++ t) e, ap (push_before (push_units cp)) f)

decode_bytes-Ends :
    (fuel : ℕ) (s : Bytes) → All IsByte s → length s ≤ fuel → Ends s (decode_bytes fuel s)
decode_bytes-Ends fuel [] v le = unfold decode_bytes utf8 utf16 in inr ([], tt, refl, refl)
decode_bytes-Ends zero (b ∷ s) v le = absurd (omega arith)
decode_bytes-Ends (suc fuel) (b ∷ s) v le = elim (Option-cases (decode_utf8 (b ∷ s))) [
  | inl e ↦ inl (decode_bytes_malformed fuel b s e)
  | inr ((cp, rest), e) ↦
      let (sc, p) = decode_utf8-eq-some (b ∷ s) v e in
      let (w, shorter) = rest_shorter b s v e in
      rw (decode_bytes_step fuel (b ∷ s) e) (
        subst (λ t. Ends t (push_before (push_units cp) (decode_bytes fuel rest))) (sym p)
          (Ends-step cp rest _ sc (decode_bytes-Ends fuel rest w (omega arith))))
]

-- `Str16ToStr8` on a list of units gives the empty string, or the list is the units of code points
-- none of which is a surrogate and the result is those code points' bytes.
pub str16_to_str8_cases :
    (u : List ℕ)
    → All IsUnit u
    → (str16_to_str8 u ≡ [])
      ⊎ ((cps : List ℕ) × All IsScalar cps × (u ≡ utf16 cps) × (str16_to_str8 u ≡ utf8 cps))
unfolding str16_to_str8
str16_to_str8_cases u v = elim (encode_units_cases u v) [
  | inl e ↦ inl (ap or_empty e)
  | inr (cps, w, e) ↦
      inr
        (cps, w, e, ap (λ t. or_empty (encode_units t)) e ∙ ap or_empty (encode_units-utf16 cps w))
]

-- `Str8ToStr16` on a list of bytes returns the empty string, or the list is the shortest-form bytes
-- of code points none of which is a surrogate and the result is those code points' units.
pub str8_to_str16_cases :
    (s : Bytes)
    → All IsByte s
    → (str8_to_str16 s ≡ some [])
      ⊎ ((cps : List ℕ) × All IsScalar cps × (s ≡ utf8 cps) × (str8_to_str16 s ≡ some (utf16 cps)))
unfolding str8_to_str16
str8_to_str16_cases s v = elim (decode_bytes-Ends (length s) s v (omega arith)) [
  | inl e ↦ inl (ap returned e)
  | inr (cps, w, e, f) ↦ inr (cps, w, e, ap returned f)
]

decode_bytes_agree :
    (f g : ℕ) (s : Bytes)
    → All IsByte s
    → length s ≤ f
    → length s ≤ g
    → decode_bytes f s ≡ decode_bytes g s
decode_bytes_agree f g [] v lf lg = unfold decode_bytes in refl
decode_bytes_agree zero g (b ∷ s) v lf lg = absurd (omega arith)
decode_bytes_agree (suc f) zero (b ∷ s) v lf lg = absurd (omega arith)
decode_bytes_agree (suc f) (suc g) (b ∷ s) v lf lg = elim (Option-cases (decode_utf8 (b ∷ s))) [
  | inl e ↦ rw (decode_bytes_malformed f b s e, decode_bytes_malformed g b s e) refl
  | inr ((cp, rest), e) ↦
      let (w, shorter) = rest_shorter b s v e in
      rw (decode_bytes_step f (b ∷ s) e, decode_bytes_step g (b ∷ s) e)
        (ap (push_before (push_units cp))
          (decode_bytes_agree f g rest w (omega arith) (omega arith)))
]

Ends-ne_stuck : (s : Bytes) (d : Decoded) → Ends s d → d ≢ stuck
Ends-ne_stuck s d (inl e) h = cc (e, h)
Ends-ne_stuck s d (inr (cps, w, e, f)) h = cc (f, h)

-- The loop of `Str8ToStr16` ends on every list of bytes: with a round for each byte or more it
-- returns, and what it returns does not depend on how many rounds more it was given.
pub decode_bytes_ends :
    (s : Bytes) (fuel : ℕ)
    → All IsByte s
    → length s ≤ fuel
    → (decode_bytes fuel s ≢ stuck) × (returned (decode_bytes fuel s) ≡ str8_to_str16 s)
unfolding str8_to_str16
decode_bytes_ends s fuel v le = (
  Ends-ne_stuck s _ (decode_bytes-Ends fuel s v le),
  ap returned (decode_bytes_agree fuel (length s) s v le (omega arith)),
)
