-- ===== src/Audio/Tones.antt =====
-- What the driver plays over the notices, while it is registered and lets the call audio go.
use telephony_call_manager_m.Prelude.{◌≡◌, true, false, List}
use telephony_call_manager_m.Types.{is_success}
use telephony_call_manager_m.Audio.{Command, Answered, Driver, Audio}
use telephony_call_manager_m.Audio.Flags.{rings, plays_waiting_tone, has_call_audio}

-- Each flag says what the driver does.
pub record InStep (a : Audio) : Type 0 where
  pub ringtone : rings a.sent ≡ a.ringtone_playing
  pub waiting_tone : plays_waiting_tone a.sent ≡ a.waiting_tone_playing
  pub call_audio : has_call_audio a.sent ≡ a.call_audio_active

-- A driver that is there, and that accepts to turn the call audio off. It may refuse everything else.
pub record IsWilling (d : Driver) : Type 0 where
  pub there : (xs : List Answered) → d.registered xs ≡ true
  pub lets_go : (xs : List Answered) → is_success (d.reply xs (Command.call_audio_set false)) ≡ true

abbrev NoTone : Audio → Type 0
NoTone a = (a.ringtone_playing ≡ false) × (a.waiting_tone_playing ≡ false)

abbrev AllOff : Audio → Type 0
AllOff a = NoTone a × (a.call_audio_active ≡ false)

-- The driver plays neither tone, by the last command for each that it was sent.
abbrev pub IsSilent : Audio → Type 0
IsSilent a = (rings a.sent ≡ false) × (plays_waiting_tone a.sent ≡ false)
