-- ===== src/Audio.antt =====
-- services/audio/src/mini/audio_control_manager.cpp: the ringtone, the waiting tone and the call audio, by
-- the notices of the calls' states. The driver behind `CallAudioLiteRegistry` is a parameter: whether it is
-- registered and what it answers, by the commands it was sent, newest first, each with its answer.
pub mod Flags
pub mod Tones
mod Tests
use telephony_call_manager_m.Prelude.{Bool, true, false, ◌||◌, List, [], ◌∷◌, if◌then◌else◌}
use telephony_call_manager_m.Types.{TelCallState, Code, is_success}
use telephony_call_manager_m.Service.{Event}

pub data Command : Type 0 where
  ringtone_start ringtone_stop waiting_tone_play waiting_tone_stop : Command
  call_audio_set : Bool → Command

pub record Answered : Type 0 where
  pub command : Command
  pub answer : Code

pub record Driver : Type 0 where
  pub registered : List Answered → Bool
  pub reply : List Answered → Command → Code

pub record Audio : Type 0 where
  pub ringtone_playing : Bool
  pub waiting_tone_playing : Bool
  pub call_audio_active : Bool
  pub unavailable_logged : Bool
  pub sent : List Answered

unfoldable pub unavailable : Audio → Audio × Code
unavailable a = (record a { unavailable_logged = true }, Code.function_not_supported)

unfoldable pub release_all : Audio → Audio
release_all a = record a {
  ringtone_playing = false;
  waiting_tone_playing = false;
  call_audio_active = false;
}

unfoldable pub init : Audio → Audio
unfolding release_all
init a = record (release_all a) { unavailable_logged = false }

module _ (d : Driver) where
  -- One command to the driver.
  unfoldable pub send_command : Command → Audio → Audio × Code
  unfolding unavailable
  send_command c a =
      let r = d.reply a.sent c in
      if d.registered a.sent
      then (record a { sent = record { command = c; answer = r } ∷ a.sent }, r)
      else unavailable a

  unfoldable pub start_ringtone : Audio → Audio × Code
  unfolding send_command unavailable
  start_ringtone a =
      let (b, r) = send_command Command.ringtone_start a in
      if a.ringtone_playing
      then (a, Code.success)
      else if d.registered a.sent
      then (record b { ringtone_playing = is_success r }, r)
      else (b, r)

  unfoldable pub stop_ringtone : Audio → Audio × Code
  unfolding send_command
  stop_ringtone a =
      if a.ringtone_playing
      then send_command Command.ringtone_stop (record a { ringtone_playing = false })
      else (a, Code.success)

  unfoldable pub play_waiting_tone : Audio → Audio × Code
  unfolding send_command unavailable
  play_waiting_tone a =
      let (b, r) = send_command Command.waiting_tone_play a in
      if a.waiting_tone_playing
      then (a, Code.success)
      else if d.registered a.sent
      then (record b { waiting_tone_playing = is_success r }, r)
      else (b, r)

  unfoldable pub stop_waiting_tone : Audio → Audio × Code
  unfolding send_command
  stop_waiting_tone a =
      if a.waiting_tone_playing
      then send_command Command.waiting_tone_stop (record a { waiting_tone_playing = false })
      else (a, Code.success)

  abbrev same_flag : Bool → Bool → Bool
  same_flag true b = b
  same_flag false true = false
  same_flag false false = true

  unfoldable pub set_call_audio_active : Bool → Audio → Audio × Code
  unfolding send_command unavailable
  set_call_audio_active on a =
      let (b, r) = send_command (Command.call_audio_set on) a in
      if same_flag a.call_audio_active on
      then (a, Code.success)
      else if d.registered a.sent
      then (if is_success r then record b { call_audio_active = on } else b, r)
      else (b, r)

  -- The three of them off, as far as the driver goes along.
  unfoldable pub quiet : Audio → Audio
  unfolding stop_ringtone stop_waiting_tone set_call_audio_active
  quiet a = (set_call_audio_active false (stop_waiting_tone (stop_ringtone a).0).0).0

  unfoldable pub un_init : Audio → Audio
  unfolding quiet release_all
  un_init a =
      let b = quiet a in
      if a.call_audio_active || (a.ringtone_playing || a.waiting_tone_playing)
      then release_all b
      else release_all a

  unfoldable pub call_answered : Audio → Audio
  unfolding stop_ringtone stop_waiting_tone set_call_audio_active
  call_answered a = (set_call_audio_active true (stop_waiting_tone (stop_ringtone a).0).0).0

  -- The tone that the call's prior state had started.
  unfoldable pub stop_prior : TelCallState → Audio → Audio
  unfolding stop_ringtone stop_waiting_tone
  stop_prior TelCallState.incoming a = (stop_ringtone a).0
  stop_prior TelCallState.waiting a = (stop_waiting_tone a).0
  stop_prior _ a = a

  unfoldable pub call_ended : TelCallState → Bool → Audio → Audio
  unfolding stop_prior quiet release_all
  call_ended prior cellular a =
      let b = stop_prior prior a in if cellular then b else release_all (quiet b)

  -- `CallStateUpdated`; `cellular` is what `HasCellularCallExist` says then.
  unfoldable pub call_state_updated : TelCallState → TelCallState → Bool → Audio → Audio
  unfolding start_ringtone play_waiting_tone call_answered call_ended
  call_state_updated prior TelCallState.incoming cellular a = (start_ringtone a).0
  call_state_updated prior TelCallState.waiting cellular a = (play_waiting_tone a).0
  call_state_updated prior TelCallState.answered cellular a = call_answered a
  call_state_updated prior TelCallState.active cellular a = call_answered a
  call_state_updated prior TelCallState.disconnected cellular a = call_ended prior cellular a
  call_state_updated prior _ cellular a = a

  -- The observer on one event of the service's log, and on the log, which is newest first.
  unfoldable pub observe : Event → Audio → Audio
  unfolding call_state_updated stop_ringtone
  observe (Event.state_updated p prior next cellular) a = call_state_updated prior next cellular a
  observe (Event.incoming_rejected p is_send_sms content) a = (stop_ringtone a).0
  observe _ a = a

  unfoldable pub observe_all : List Event → Audio → Audio
  unfolding observe
  observe_all [] a = a
  observe_all (e ∷ es) a = observe e (observe_all es a)

unfoldable pub set_mute : Code
set_mute = Code.function_not_supported

unfoldable pub set_audio_device : Code
set_audio_device = Code.function_not_supported
