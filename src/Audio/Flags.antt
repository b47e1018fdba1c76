-- ===== src/Audio/Flags.antt =====
-- What the flags of the audio manager say of the driver, over any notices.
use telephony_call_manager_m.Prelude.{
  ◌≡◌, ◌⊎◌, inl, refl, Bool, true, false, List, [], ◌∷◌, if◌then◌else◌, arith,
}
use telephony_call_manager_m.Types.{TelCallState, is_success}
use telephony_call_manager_m.Service.{Event}
use telephony_call_manager_m.Audio.{
  Command, Answered, Driver, Audio, release_all, send_command, start_ringtone, stop_ringtone,
  play_waiting_tone, stop_waiting_tone, set_call_audio_active, quiet, call_answered, stop_prior,
  call_ended, call_state_updated, observe, observe_all,
}

-- What the driver plays by the commands that it took: the last one of each kind decides.
unfoldable pub rings : List Answered → Bool
rings [] = false
rings (x ∷ xs) = elim x.command [
  | Command.ringtone_start ↦ is_success x.answer
  | Command.ringtone_stop ↦ false
  | _ ↦ rings xs
]

unfoldable pub plays_waiting_tone : List Answered → Bool
plays_waiting_tone [] = false
plays_waiting_tone (x ∷ xs) = elim x.command [
  | Command.waiting_tone_play ↦ is_success x.answer
  | Command.waiting_tone_stop ↦ false
  | _ ↦ plays_waiting_tone xs
]

-- A change of the call audio that fails leaves it as it was.
unfoldable pub has_call_audio : List Answered → Bool
has_call_audio [] = false
has_call_audio (x ∷ xs) = elim x.command [
  | Command.call_audio_set on ↦ if is_success x.answer then on else has_call_audio xs
  | _ ↦ has_call_audio xs
]

-- No flag is on without the driver.
pub record Backed (a : Audio) : Type 0 where
  pub ringtone : (a.ringtone_playing ≡ false) ⊎ (rings a.sent ≡ true)
  pub waiting_tone : (a.waiting_tone_playing ≡ false) ⊎ (plays_waiting_tone a.sent ≡ true)
  pub call_audio : (a.call_audio_active ≡ false) ⊎ (has_call_audio a.sent ≡ true)

start_ringtone-Backed : (d : Driver) (a : Audio) → Backed a → Backed (start_ringtone d a).0
unfolding start_ringtone send_command rings plays_waiting_tone has_call_audio
start_ringtone-Backed d a v = ground (arith, v)

stop_ringtone-Backed : (d : Driver) (a : Audio) → Backed a → Backed (stop_ringtone d a).0
unfolding stop_ringtone send_command rings plays_waiting_tone has_call_audio
stop_ringtone-Backed d a v = ground (arith, v)

play_waiting_tone-Backed : (d : Driver) (a : Audio) → Backed a → Backed (play_waiting_tone d a).0
unfolding play_waiting_tone send_command rings plays_waiting_tone has_call_audio
play_waiting_tone-Backed d a v = ground (arith, v)

stop_waiting_tone-Backed : (d : Driver) (a : Audio) → Backed a → Backed (stop_waiting_tone d a).0
unfolding stop_waiting_tone send_command rings plays_waiting_tone has_call_audio
stop_waiting_tone-Backed d a v = ground (arith, v)

set_call_audio_active-Backed :
    (d : Driver) (on : Bool) (a : Audio) → Backed a → Backed (set_call_audio_active d on a).0
unfolding set_call_audio_active send_command rings plays_waiting_tone has_call_audio
set_call_audio_active-Backed d on a v = ground (arith, v)

release_all-Backed : (a : Audio) → Backed a → Backed (release_all a)
unfolding release_all
release_all-Backed a v = record {
  ringtone = inl refl;
  waiting_tone = inl refl;
  call_audio = inl refl;
}

call_answered-Backed : (d : Driver) (a : Audio) → Backed a → Backed (call_answered d a)
unfolding call_answered
call_answered-Backed d a v =
    set_call_audio_active-Backed d true _
      (stop_waiting_tone-Backed d _ (stop_ringtone-Backed d a v))

quiet-Backed : (d : Driver) (a : Audio) → Backed a → Backed (quiet d a)
unfolding quiet
quiet-Backed d a v =
    set_call_audio_active-Backed d false _
      (stop_waiting_tone-Backed d _ (stop_ringtone-Backed d a v))

after_prior-Backed :
    (d : Driver) (cellular : Bool) (b : Audio)
    → Backed b
    → Backed (if cellular then b else release_all (quiet d b))
after_prior-Backed d true b v = v
after_prior-Backed d false b v = release_all-Backed (quiet d b) (quiet-Backed d b v)

stop_prior-Backed :
    (d : Driver) (prior : TelCallState) (a : Audio) → Backed a → Backed (stop_prior d prior a)
unfolding stop_prior
stop_prior-Backed d TelCallState.unknown a v = v
stop_prior-Backed d TelCallState.active a v = v
stop_prior-Backed d TelCallState.holding a v = v
stop_prior-Backed d TelCallState.dialing a v = v
stop_prior-Backed d TelCallState.alerting a v = v
stop_prior-Backed d TelCallState.incoming a v = stop_ringtone-Backed d a v
stop_prior-Backed d TelCallState.waiting a v = stop_waiting_tone-Backed d a v
stop_prior-Backed d TelCallState.disconnected a v = v
stop_prior-Backed d TelCallState.disconnecting a v = v
stop_prior-Backed d TelCallState.idle a v = v
stop_prior-Backed d TelCallState.answered a v = v

call_ended-Backed :
    (d : Driver) (prior : TelCallState) (cellular : Bool) (a : Audio)
    → Backed a
    → Backed (call_ended d prior cellular a)
unfolding call_ended
call_ended-Backed d prior cellular a v =
    after_prior-Backed d cellular (stop_prior d prior a) (stop_prior-Backed d prior a v)

call_state_updated-Backed :
    (d : Driver) (prior next : TelCallState) (cellular : Bool) (a : Audio)
    → Backed a
    → Backed (call_state_updated d prior next cellular a)
unfolding call_state_updated
call_state_updated-Backed d prior TelCallState.unknown cellular a v = v
call_state_updated-Backed d prior TelCallState.active cellular a v = call_answered-Backed d a v
call_state_updated-Backed d prior TelCallState.holding cellular a v = v
call_state_updated-Backed d prior TelCallState.dialing cellular a v = v
call_state_updated-Backed d prior TelCallState.alerting cellular a v = v
call_state_updated-Backed d prior TelCallState.incoming cellular a v = start_ringtone-Backed d a v
call_state_updated-Backed d prior TelCallState.waiting cellular a v = play_waiting_tone-Backed d a v
call_state_updated-Backed d prior TelCallState.disconnected cellular a v =
    call_ended-Backed d prior cellular a v
call_state_updated-Backed d prior TelCallState.disconnecting cellular a v = v
call_state_updated-Backed d prior TelCallState.idle cellular a v = v
call_state_updated-Backed d prior TelCallState.answered cellular a v = call_answered-Backed d a v

observe-Backed : (d : Driver) (e : Event) (a : Audio) → Backed a → Backed (observe d e a)
unfolding observe
observe-Backed d (Event.state_updated p prior next cellular) a v =
    call_state_updated-Backed d prior next cellular a v
observe-Backed d (Event.incoming_rejected p is_send_sms content) a v = stop_ringtone-Backed d a v
observe-Backed d (Event.sent r) a v = v
observe-Backed d (Event.new_call_created p) a v = v
observe-Backed d (Event.incoming_answered p) a v = v
observe-Backed d (Event.call_destroyed reason) a v = v
observe-Backed d (Event.event_updated id number) a v = v
observe-Backed d Event.local_alerting a v = v

-- If the flags of the audio manager were backed by the driver, they are so after any notices: while the
-- flag of a tone is on, the last command for that tone that was sent is its start, and the driver
-- accepted it; while the flag of the call audio is on, the last change of it that the driver accepted
-- turned it on.
pub observe_all-Backed :
    (d : Driver) (es : List Event) (a : Audio) → Backed a → Backed (observe_all d es a)
unfolding observe_all
observe_all-Backed d [] a v = v
observe_all-Backed d (e ∷ es) a v = observe-Backed d e _ (observe_all-Backed d es a v)
