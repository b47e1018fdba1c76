-- ===== src/Requests/Checks.antt =====
-- What `DialCall` checks covers what `DialRequest` checks once more.
use telephony_call_manager_m.Prelude.{
  ◌≤◌, ◌≡◌, ◌⊎◌, refl, Bool, true, false, not, ◌&&◌, ◌||◌, [], ◌∷◌, inl, inr, Bool-cases, arith,
  if◌then◌else◌, length,
}
use telephony_call_manager_m.Prelude.Eq.{◌==◌}
use telephony_call_manager_m.Prelude.Int.{ℤ, int_eq}
use telephony_call_manager_m.Types.{Bytes, Code, is_success}
use telephony_call_manager_m.Utf.{str16_to_str8}
use telephony_call_manager_m.Number.{remove_separators_phone_number}
use telephony_call_manager_m.CallTable.{CallTable}
use telephony_call_manager_m.CallTable.Scans.{has_new_call}
use telephony_call_manager_m.Policy.{
  Services, DialExtras, dial_carrier_type, dial_voice_mail_type, call_emergency, check_dial_type,
  select_account_id_for_carrier, dial_policy,
}
use telephony_call_manager_m.Service.{World, Env}
use telephony_call_manager_m.Requests.Control.{number_legality_check, before_comma}
use telephony_call_manager_m.Requests.Dial.{dial_request, carrier_dial_process}
use telephony_call_manager_m.Requests.Entry.{
  DialAsked, dial_number, dial_call, can_dial, package_dial_information, set_call_type_extras,
}

length-remove_separators-le : (s : Bytes) → length (remove_separators_phone_number s) ≤ length s
unfolding remove_separators_phone_number
length-remove_separators-le [] = omega arith
length-remove_separators-le (c ∷ s) = ground (arith, length-remove_separators-le s)

length-before_comma-le : (s : Bytes) → length (before_comma s) ≤ length s
unfolding before_comma
length-before_comma-le [] = omega arith
length-before_comma-le (c ∷ s) = ground (arith, length-before_comma-le s)

legal-fits :
    (s : Bytes)
    → is_success (number_legality_check s).1 ≡ true
    → length (number_legality_check s).0 ≤ 255
unfolding number_legality_check
legal-fits [] e = omega arith
legal-fits (c ∷ s) e = ground (arith, length-before_comma-le (c ∷ s))

abbrev is_carried_type : ℤ → Bool
is_carried_type k = k == dial_carrier_type || k == dial_voice_mail_type

can_dial-type :
    (sv : Services) (x : DialExtras) (is_ecc : Bool) (t : CallTable)
    → is_success (can_dial sv x is_ecc t).1 ≡ true
    → is_carried_type (can_dial sv x is_ecc t).0.dial_type ≡ true
unfolding can_dial dial_policy check_dial_type select_account_id_for_carrier
can_dial-type sv x is_ecc t e = ground arith

set_call_type_extras-type :
    (sv : Services) (x : DialExtras) → (set_call_type_extras sv x).dial_type ≡ x.dial_type
unfolding set_call_type_extras
set_call_type_extras-type sv x = ground arith

-- The world after `PackageDialInformation`.
unfoldable pub packaged : Env → Services → DialAsked → Bytes → World → World
packaged env sv a number w =
    let x = a.extras in
    let is_ecc = env.is_emergency number x.account_id in
    let x1 = if is_ecc then (record x { dial_scene = call_emergency }) else x in
    let y = (can_dial sv x1 is_ecc w.table).0 in
    package_dial_information a (set_call_type_extras sv y) number is_ecc w

abbrev pub dialed_number : DialAsked → Bytes
dialed_number a = remove_separators_phone_number (number_legality_check (str16_to_str8 a.number)).0

abbrev RefusedAs : World → World × Code → Type 0
RefusedAs w r = (c : Code) × (is_success c ≡ false) × (r ≡ (w, c))

abbrev pub IsRefused : Env → Services → DialAsked → World → Type 0
IsRefused env sv a w = RefusedAs w (dial_call env sv a w)

abbrev pub IsCarried : Env → Services → DialAsked → World → Type 0
IsCarried env sv a w =
    let p = packaged env sv a (dialed_number a) w in
    dial_call env sv a w ≡ carrier_dial_process env p.last_dial p

dial_request-packaged :
    (env : Env) (w : World)
    → w.last_is_dialing ≡ true
    → length w.last_dial.number ≤ 255
    → is_carried_type w.last_dial_type ≡ true
    → dial_request env w ≡ carrier_dial_process env w.last_dial w
unfolding dial_request
dial_request-packaged env w dialing fits carried = ground arith

dial_number_cases :
    (env : Env) (sv : Services) (a : DialAsked) (number : Bytes) (w : World)
    → length number ≤ 255
    → RefusedAs w (dial_number env sv a number w)
      ⊎ (dial_number env sv a number w
          ≡ carrier_dial_process env
              (packaged env sv a number w).last_dial
              (packaged env sv a number w))
unfolding packaged dial_number
dial_number_cases env sv a number w fits =
    let x = a.extras in
    let is_ecc = env.is_emergency number x.account_id in
    let x1 = if is_ecc then (record x { dial_scene = call_emergency }) else x in
    elim (Bool-cases (is_success (can_dial sv x1 is_ecc w.table).1)) [
      | inr e ↦ inl ((can_dial sv x1 is_ecc w.table).1, e, rw (dial_number, e) refl)
      | inl e ↦ elim (Bool-cases (not is_ecc && not (is_success (has_new_call w.table)))) [
        | inl f ↦ inl (Code.call_counts_exceed_limit, refl, rw (dial_number, e, f) refl)
        | inr f ↦
            let y = (can_dial sv x1 is_ecc w.table).0 in
            inr (
              rw (dial_number, e, f)
                (dial_request-packaged env (packaged env sv a number w)
                  (unfold package_dial_information in refl)
                  (unfold package_dial_information in fits)
                  (unfold package_dial_information in
                    rw (set_call_type_extras-type sv y) (can_dial-type sv x1 is_ecc w.table e))))
      ]
    ]

-- A dial that is asked for is refused with an error, and then the service is as it was, or the dial
-- information is packaged and the carrier's dial starts on it: the checks that `DialRequest` makes once
-- more never refuse it.
pub dial_call_cases :
    (env : Env) (sv : Services) (a : DialAsked) (w : World)
    → IsRefused env sv a w ⊎ IsCarried env sv a w
unfolding dial_call carrier_dial_process
dial_call_cases env sv a w =
    let s = str16_to_str8 a.number in
    elim (Bool-cases (is_success (number_legality_check s).1)) [
      | inr e ↦ inl ((number_legality_check s).1, e, rw (dial_call, e) refl)
      | inl e ↦
          rw (dial_call, e)
            (dial_number_cases env sv a (dialed_number a) w (
              omega
                (arith, legal-fits s e, length-remove_separators-le (number_legality_check s).0)))
    ]
