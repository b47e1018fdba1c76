-- ===== src/Audio/Tests.antt =====
-- A call that rings, is answered and ends.
use telephony_call_manager_m.Prelude.{◌≡◌, refl, inl, true, false, List, [], ◌∷◌}
use telephony_call_manager_m.Types.{TelCallState, Code}
use telephony_call_manager_m.Service.{Event}
use telephony_call_manager_m.Audio.{
  Driver, Audio, observe_all, observe, call_state_updated, start_ringtone, stop_ringtone,
  call_answered, send_command, set_call_audio_active, stop_waiting_tone,
}
use telephony_call_manager_m.Audio.Flags.{Backed, observe_all-Backed}

abbrev off : Audio
off = record {
  ringtone_playing = false;
  waiting_tone_playing = false;
  call_audio_active = false;
  unavailable_logged = false;
  sent = [];
}

abbrev willing : Driver
willing = record { registered = λ xs. true; reply = λ xs c. Code.success }

off-Backed : Backed off
off-Backed = record { ringtone = inl refl; waiting_tone = inl refl; call_audio = inl refl }

rings_then_talks :
    (observe_all willing
      (Event.state_updated 0 TelCallState.incoming TelCallState.active true
        ∷ Event.state_updated 0 TelCallState.idle TelCallState.incoming true
        ∷ [])
      off).call_audio_active
    ≡ true
unfolding observe_all observe call_state_updated start_ringtone stop_ringtone call_answered
    send_command set_call_audio_active stop_waiting_tone
rings_then_talks = refl

observe_all-Backed_example : Backed (
    observe_all willing
      (Event.state_updated 0 TelCallState.idle TelCallState.incoming true ∷ [])
      off)
observe_all-Backed_example =
    observe_all-Backed willing
      (Event.state_updated 0 TelCallState.idle TelCallState.incoming true ∷ []) off off-Backed

-- A call rings, and a second one waits.
abbrev ringing : List Event
ringing =
    Event.state_updated 1 TelCallState.idle TelCallState.waiting true
    ∷ Event.state_updated 0 TelCallState.idle TelCallState.incoming true
    ∷ []
