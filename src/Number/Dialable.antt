-- ===== src/Number/Dialable.antt =====
-- The two filters on phone numbers, and how they combine.
use telephony_call_manager_m.Prelude.{
  ℕ, ◌≡◌, refl, ap, true, false, [], ◌∷◌, arith, Bool-cases, inl, inr, if◌then◌else◌,
}
use telephony_call_manager_m.Types.{Bytes}
use telephony_call_manager_m.Number.{
  is_address, is_post_dial, remove_separators_phone_number, remove_post_dial_phone_number,
}

-- The part of a number before its first `,` or `;`.
pub network_part : Bytes → Bytes
network_part [] = []
network_part (c ∷ s) = if is_post_dial c then [] else c ∷ network_part s

pub keep_address : Bytes → Bytes
keep_address [] = []
keep_address (c ∷ s) = if is_address c then c ∷ keep_address s else keep_address s

address-not_post_dial : (c : ℕ) → is_address c ≡ true → is_post_dial c ≡ false
unfolding is_address is_post_dial
address-not_post_dial c h = ground arith

-- `RemovePostDialPhoneNumber` gives the address characters of the part before the first `,` or `;`.
pub remove_post_dial_phone_number_lem :
    (s : Bytes) → remove_post_dial_phone_number s ≡ keep_address (network_part s)
unfolding remove_post_dial_phone_number network_part keep_address
remove_post_dial_phone_number_lem [] = refl
remove_post_dial_phone_number_lem (c ∷ s) =
    ground (arith, address-not_post_dial c, remove_post_dial_phone_number_lem s)

-- Removing the separators first does not change the number without its post-dial part.
pub remove_post_dial-remove_separators :
    (s : Bytes)
    → remove_post_dial_phone_number (remove_separators_phone_number s)
      ≡ remove_post_dial_phone_number s
unfolding remove_post_dial_phone_number remove_separators_phone_number
remove_post_dial-remove_separators [] = refl
remove_post_dial-remove_separators (c ∷ s) = elim (Bool-cases (is_address c)) [
  | inl e ↦ rw (e, e) (ap (◌∷◌ c) (remove_post_dial-remove_separators s))
  | inr e ↦ elim (Bool-cases (is_post_dial c)) [
    | inl f ↦ rw (e, f) (rw (e, f))
    | inr f ↦ rw (e, f) (remove_post_dial-remove_separators s)
  ]
]
