-- ===== src/Policy/Dial.antt =====
-- When a dial is let through.
use telephony_call_manager_m.Prelude.{
  ◌≡◌, ◌↔◌, ◌⊎◌, inl, inr, refl, Bool, true, false, arith, Bool-cases,
}
use telephony_call_manager_m.Prelude.Int.{ℤ, pos, int_eq}
use telephony_call_manager_m.Types.{Code, is_success, and_then}
use telephony_call_manager_m.CallTable.{CallTable}
use telephony_call_manager_m.CallTable.Scans.{has_emergency_call}
use telephony_call_manager_m.Policy.{
  Services, DialExtras, dial_policy, select_account_id_for_carrier, call_normal, call_privileged,
  call_emergency, dial_carrier_type, dial_voice_mail_type, voice_value, video_value,
  check_dial_type, dial_checks, validate_call_type, validate_dial_scene, validate_video_state,
  check_call_limit, has_normal_call, check_mdm_policy,
}

-- The dials that the Mini build supports: a carrier or voice-mail dial, over CS (0) or IMS (1), in a
-- known scene, with voice or video.
pub record IsSupported (x : DialExtras) : Type 0 where
  pub dial : (x.dial_type ≡ dial_carrier_type) ⊎ (x.dial_type ≡ dial_voice_mail_type)
  pub carrier : (x.call_type ≡ pos 0) ⊎ (x.call_type ≡ pos 1)
  pub scene :
      (x.dial_scene ≡ call_normal)
      ⊎ (x.dial_scene ≡ call_privileged)
      ⊎ (x.dial_scene ≡ call_emergency)
  pub media : (x.video_state ≡ voice_value) ⊎ (x.video_state ≡ video_value)

-- An emergency dial needs nothing else; any other needs that no emergency call is up, a SIM card in the
-- slot, and a network in service there.
abbrev pub IsReady : Services → ℤ → Bool → CallTable → Type 0
IsReady sv slot is_ecc t =
    (is_ecc ≡ true)
    ⊎ ((has_emergency_call t ≡ false)
        × (sv.has_sim_card slot ≡ true)
        × (sv.is_network_in_service slot ≡ true))

dial_type_iff :
    (k : ℤ)
    → (is_success (check_dial_type k) ≡ true)
      ↔ ((k ≡ dial_carrier_type) ⊎ (k ≡ dial_voice_mail_type))
unfolding check_dial_type
dial_type_iff k = (λ h. ground (arith, h), λ h. ground (arith, h))

call_type_iff : (k : ℤ) → (is_success (validate_call_type k) ≡ true) ↔ ((k ≡ pos 0) ⊎ (k ≡ pos 1))
unfolding validate_call_type
call_type_iff k = (λ h. ground (arith, h), λ h. ground (arith, h))

scene_iff :
    (k : ℤ)
    → (is_success (validate_dial_scene k) ≡ true)
      ↔ ((k ≡ call_normal) ⊎ (k ≡ call_privileged) ⊎ (k ≡ call_emergency))
unfolding validate_dial_scene
scene_iff k = (λ h. ground (arith, h), λ h. ground (arith, h))

media_iff :
    (k : ℤ) → (is_success (validate_video_state k) ≡ true) ↔ ((k ≡ voice_value) ⊎ (k ≡ video_value))
unfolding validate_video_state
media_iff k = (λ h. ground (arith, h), λ h. ground (arith, h))

IsReady-iff :
    (sv : Services) (slot : ℤ) (is_ecc : Bool) (t : CallTable)
    → (is_success (and_then (check_call_limit is_ecc t) (has_normal_call sv is_ecc slot)) ≡ true)
      ↔ IsReady sv slot is_ecc t
unfolding check_call_limit has_normal_call
IsReady-iff sv slot is_ecc t = (λ h. ground (arith, h), λ h. ground (arith, h))

and_then_iff :
    (a b : Code)
    → (is_success (and_then a b) ≡ true) ↔ ((is_success a ≡ true) × (is_success b ≡ true))
and_then_iff Code.success b = (λ h. (refl, h), λ h. h.1)
and_then_iff _ b = (λ h. ground (arith, h), λ h. ground (arith, h))

is_success_iff : (c : Code) → (is_success c ≡ true) ↔ (c ≡ Code.success)
is_success_iff c = (λ h. ground (arith, h), λ h. ground (arith, h))

-- The selection changes the account alone.
select_keeps :
    (x : DialExtras)
    → let y = select_account_id_for_carrier x in
      (y.dial_type ≡ x.dial_type)
      × (y.call_type ≡ x.call_type)
      × (y.dial_scene ≡ x.dial_scene)
      × (y.video_state ≡ x.video_state)
unfolding select_account_id_for_carrier
select_keeps x = ground arith

dial_checks_iff :
    (sv : Services) (x : DialExtras) (is_ecc : Bool) (t : CallTable)
    → (is_success (dial_checks sv x is_ecc t) ≡ true) ↔ (
        (is_success (validate_call_type x.call_type) ≡ true)
        × (is_success (validate_dial_scene x.dial_scene) ≡ true)
        × (is_success (validate_video_state x.video_state) ≡ true)
        × IsReady sv x.account_id is_ecc t)
unfolding dial_checks
dial_checks_iff sv x is_ecc t = (
  λ h.
      let a = (and_then_iff (validate_call_type x.call_type) _).0 h in
      let b = (and_then_iff (validate_dial_scene x.dial_scene) _).0 a.1 in
      let c = (and_then_iff (validate_video_state x.video_state) _).0 b.1 in
      (a.0, b.0, c.0, (IsReady-iff sv x.account_id is_ecc t).0 c.1),
  λ h. (and_then_iff (validate_call_type x.call_type) _).1 (
    h.0,
    (and_then_iff (validate_dial_scene x.dial_scene) _).1 (
      h.1,
      (and_then_iff (validate_video_state x.video_state) _).1
          (h.2, (IsReady-iff sv x.account_id is_ecc t).1 h.3),
    ),
  ),
)

abbrev selected_slot : DialExtras → ℤ
selected_slot x = (select_account_id_for_carrier x).account_id

-- What `dial_policy` asks, as four tests and the readiness.
dial_policy_tests :
    (sv : Services) (x : DialExtras) (is_ecc : Bool) (t : CallTable)
    → (is_success (dial_policy sv x is_ecc t).1 ≡ true) ↔ (
        (is_success (check_dial_type x.dial_type) ≡ true)
        × (is_success (dial_checks sv (select_account_id_for_carrier x) is_ecc t) ≡ true))
unfolding dial_policy check_mdm_policy
dial_policy_tests sv x is_ecc t = elim (Bool-cases (is_success (check_dial_type x.dial_type))) [
  | inl e ↦ rw e (λ h. (refl, h), λ h. h.1)
  | inr e ↦ rw e (λ h. cc (e, h), λ h. cc h.0)
]

-- A dial is let through exactly when it is one that this build supports and, unless it is an emergency
-- dial, no emergency call is up and the selected slot has a SIM card and a network in service.
pub dial_policy_accepts :
    (sv : Services) (x : DialExtras) (is_ecc : Bool) (t : CallTable)
    → ((dial_policy sv x is_ecc t).1 ≡ Code.success)
      ↔ (IsSupported x × IsReady sv (select_account_id_for_carrier x).account_id is_ecc t)
dial_policy_accepts sv x is_ecc t = (forth, back)
  where
    y : DialExtras
    y = select_account_id_for_carrier x

    forth :
        (dial_policy sv x is_ecc t).1 ≡ Code.success
        → IsSupported x × IsReady sv y.account_id is_ecc t
    forth h =
        let keep = select_keeps x in
        let tests = (dial_policy_tests sv x is_ecc t).0 ((is_success_iff _).1 h) in
        let checks = (dial_checks_iff sv y is_ecc t).0 tests.1 in
        (
          record {
            dial = (dial_type_iff x.dial_type).0 tests.0;
            carrier = rw keep.1 at ((call_type_iff y.call_type).0 checks.0);
            scene = rw keep.2 at ((scene_iff y.dial_scene).0 checks.1);
            media = rw keep.3 at ((media_iff y.video_state).0 checks.2);
          },
          checks.3,
        )

    back :
        IsSupported x × IsReady sv y.account_id is_ecc t
        → (dial_policy sv x is_ecc t).1 ≡ Code.success
    back (s, ready) =
        let keep = select_keeps x in
        (is_success_iff _).0 (
          (dial_policy_tests sv x is_ecc t).1 (
            (dial_type_iff x.dial_type).1 s.dial,
            (dial_checks_iff sv y is_ecc t).1 (
              (call_type_iff y.call_type).1 (rw keep.1 s.carrier),
              (scene_iff y.dial_scene).1 (rw keep.2 s.scene),
              (media_iff y.video_state).1 (rw keep.3 s.media),
              ready,
            ),
          ))
