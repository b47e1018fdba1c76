-- ===== src/Client/Tests.antt =====
-- Runs of the client, and the theorems at concrete inputs.
use telephony_call_manager_m.Prelude.{◌≡◌, refl, true, false, none, some, [], ◌∷◌, List}
use telephony_call_manager_m.Prelude.Eq.{nat_eq}
use telephony_call_manager_m.Prelude.Int.{pos, int_eq}
use telephony_call_manager_m.Types.{bytes_eq}
use telephony_call_manager_m.Samples.{at_start}
use telephony_call_manager_m.Samples.Worlds.{willing, idle_helper, world_of, served}
use telephony_call_manager_m.Manager.{Manager}
use telephony_call_manager_m.Manager.Names.{Permission, name_of}
use telephony_call_manager_m.Manager.Trusted.{Trust}
use telephony_call_manager_m.Manager.Asks.{register, un_register, hang_up}
use telephony_call_manager_m.Client.{Outcome, Client, client_ask, service_start, service_stop}
use telephony_call_manager_m.Client.Told.{IsTold}
use telephony_call_manager_m.Client.Registration.{
  Use, init_it, start, un_init_it, ask, use_all, use_all-IsTold,
}
use telephony_call_manager_m.Client.Refusals.{IsVain, client_ask-IsVain}
use telephony_call_manager_m.Client.Restart.{IsStuck, restart_strands}

-- A system application that may set the telephony state.
abbrev trusted : Trust
trusted = record {
  granted = name_of Permission.set_telephony_state;
  is_system_app = true;
  bundle_name = b'x' ∷ [];
}

abbrev stopped : Manager
stopped = record {
  ready = false;
  control = false;
  callback = none;
  world = world_of at_start idle_helper [];
}

abbrev unused : Client
unused = record {
  is_init = false;
  has_proxy = false;
  init_status = false;
  register_status = false;
  callback = none;
  closed = [];
  manager = stopped;
}

abbrev registering : List Use
registering =
    start
    ∷ init_it
    ∷ ask Outcome.in_time (register (some 3))
    ∷ ask Outcome.too_late un_register
    ∷ un_init_it Outcome.no_place
    ∷ []

use_all-IsTold_example : IsTold (b'x' ∷ []) (use_all willing served trusted registering unused)
use_all-IsTold_example = use_all-IsTold willing served trusted registering unused (refl, tt)

-- A client with its callback registered.
abbrev registered : Client
registered = record unused {
  is_init = true;
  has_proxy = true;
  init_status = true;
  register_status = true;
  callback = some 3;
  manager = record stopped {
    ready = true;
    control = true;
    callback = some (record { callback = 3; bundle = b'x' ∷ [] });
  };
}

client_ask-IsVain_example :
    IsVain registered
      (client_ask willing served trusted Outcome.no_loop (hang_up (pos 1)) registered)
client_ask-IsVain_example =
    client_ask-IsVain willing served trusted Outcome.no_loop (hang_up (pos 1)) registered refl

restart_strands_example :
    let q = service_start (service_stop willing trusted registered) in
    (q.manager.callback ≡ none)
    × (IsStuck q (client_ask willing served trusted Outcome.in_time (register (some 4)) q)
        × IsStuck q (client_ask willing served trusted Outcome.in_time un_register q))
restart_strands_example =
    restart_strands willing served trusted Outcome.in_time 4 registered refl refl
      (refl, (refl, refl))
