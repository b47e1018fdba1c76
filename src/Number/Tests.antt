-- ===== src/Number/Tests.antt =====
-- Runs on one dial string: `1-0,5`.
use telephony_call_manager_m.Prelude.{◌≡◌, refl, [], ◌∷◌}
use telephony_call_manager_m.Types.{Bytes}
use telephony_call_manager_m.Number.{remove_post_dial_phone_number}

abbrev typed : Bytes
typed = 49 ∷ 45 ∷ 48 ∷ 44 ∷ 53 ∷ []

typed_dialed : remove_post_dial_phone_number typed ≡ 49 ∷ 48 ∷ []
unfolding remove_post_dial_phone_number
typed_dialed = refl
