-- ===== src/Manager/Tests.antt =====
-- Runs of the service's entries, and the theorems at concrete inputs.
use telephony_call_manager_m.Prelude.{◌≡◌, refl, true, false, not, ◌&&◌, some, [], ◌∷◌}
use telephony_call_manager_m.Prelude.Eq.{◌==◌, nat_eq}
use telephony_call_manager_m.Prelude.Int.{pos, int_eq}
use telephony_call_manager_m.Types.{Bytes, bytes_eq}
use telephony_call_manager_m.Samples.{at_start}
use telephony_call_manager_m.Samples.Worlds.{willing, idle_helper, world_of, served}
use telephony_call_manager_m.PacMap.{PacMap}
use telephony_call_manager_m.Manager.{Manager}
use telephony_call_manager_m.Manager.Trusted.{Trust, list_contains}
use telephony_call_manager_m.Manager.Asks.{hang_up, serve}
use telephony_call_manager_m.Manager.{build_dial_info, dial_asked}
use telephony_call_manager_m.Manager.Names.{bundle_name_key, token_key}
use telephony_call_manager_m.PacMap.{put_string_value}
use telephony_call_manager_m.Manager.Life.{un_init}
use telephony_call_manager_m.Manager.Trusted.{items, is_one_of, list_contains_lem}
use telephony_call_manager_m.Manager.Asks.{IsRefused, serve-IsRefused}
use telephony_call_manager_m.Manager.DialInfo.{build_dial_info_lem}
use telephony_call_manager_m.Manager.Life.{un_init_lem}

-- The list `a;b`.
abbrev a_and_b : Bytes
a_and_b = b'a' ∷ b';' ∷ b'b' ∷ []

abbrev just_b : Bytes
just_b = b'b' ∷ []

list_contains_lem_example :
    list_contains a_and_b just_b ≡ (not (just_b == []) && is_one_of just_b (items a_and_b))
list_contains_lem_example = list_contains_lem a_and_b just_b

-- A caller that is no system application and has no permission.
abbrev stranger : Trust
stranger = record { granted = []; is_system_app = false; bundle_name = b'x' ∷ [] }

abbrev running : Manager
running = record {
  ready = true;
  control = true;
  callback = some (record { callback = 3; bundle = b'x' ∷ [] });
  world = world_of at_start idle_helper [];
}

serve-IsRefused_example :
    IsRefused running (serve willing served stranger (hang_up (pos 1)) running)
serve-IsRefused_example = serve-IsRefused willing served stranger (hang_up (pos 1)) running refl

-- Extras that name another bundle and have a token.
abbrev disguised : PacMap
disguised = put_string_value token_key (b'z' ∷ []) (put_string_value bundle_name_key (b'y' ∷ []) [])

build_dial_info_lem_example :
    dial_asked (49 ∷ 48 ∷ []) (build_dial_info disguised (b'x' ∷ []))
    ≡ record (dial_asked (49 ∷ 48 ∷ []) disguised) {
      bundle_name = b'x' ∷ [];
      token = [];
      is_custom_accessibility = false;
    }
build_dial_info_lem_example = build_dial_info_lem (49 ∷ 48 ∷ []) disguised (b'x' ∷ [])

un_init_lem_example :
    let u = un_init willing (b'x' ∷ []) running in
    (u.world.table.calls ≡ [])
    × ((u.world.listening ≡ false)
        × ((u.world.reporting ≡ false)
            × ((u.control ≡ false) × (un_init willing (b'x' ∷ []) u ≡ u))))
un_init_lem_example = un_init_lem willing (b'x' ∷ []) running refl refl
