-- ===== src/Samples/Worlds.antt =====
-- The service with one call, for the tests: a willing cellular stack, and a running main loop.
use telephony_call_manager_m.Prelude.{true, false, none, [], ◌∷◌, List}
use telephony_call_manager_m.Prelude.Int.{ℤ, pos, negsuc}
use telephony_call_manager_m.Types.{TelCallState, CallType, VideoStateType, Code}
use telephony_call_manager_m.CallTable.{CallTable}
use telephony_call_manager_m.Conference.{new_conference}
use telephony_call_manager_m.EventLoop.Queue.{new_ring}
use telephony_call_manager_m.Status.{CallDetailInfo}
use telephony_call_manager_m.Policy.{Services, dial_carrier_type, call_normal, voice_value}
use telephony_call_manager_m.Requests.Entry.{DialAsked}
use telephony_call_manager_m.Service.{World, Env}
use telephony_call_manager_m.Service.Pending.{Helper}

abbrev pub willing : Env
willing = record {
  now = record { first = 5; second = 6 };
  freq = 100;
  tick = 7;
  ms_to_ticks = λ ms. ms;
  registered = λ es. true;
  answer = λ es r. Code.success;
  is_emergency = λ number slot. false;
}

abbrev pub idle_helper : Helper
idle_helper = record {
  is_dialing = false;
  restore_task_id = 0;
  pending_mo = false;
  pending_mo_call_id = negsuc 0;
  pending_hangup = false;
  pending_hangup_call_id = negsuc 0;
  pending_hangup_task_id = 0;
}

abbrev pub report_of : ℤ → TelCallState → CallDetailInfo
report_of index s = record {
  index = index;
  account_id = pos 0;
  phone_num = 49 ∷ 48 ∷ [];
  call_mode = VideoStateType.voice;
  call_type = CallType.cs;
  state = s;
  bundle_name = [];
  crs_type = pos 0;
  original_call_type = 0;
  phone_or_watch = pos 0;
  new_call_use_box = pos 0;
  ims_domain = pos 0;
  mpty = pos 0;
  phone_index = pos 0;
  reason = pos 0;
  message = [];
}

abbrev pub world_of : CallTable → Helper → List CallDetailInfo → World
world_of t h stored = record {
  table = t;
  cs_conference = new_conference;
  ims_conference = new_conference;
  helper = h;
  loop = record {
    running = true;
    ring = new_ring 4;
    max_delayed_tasks = 4;
    delayed = [];
    last_task_id = 0;
    timer = none;
    timer_message_queued = false;
  };
  listening = true;
  reporting = true;
  last_dial = record {
    account_id = pos 0;
    call_id = negsuc 0;
    index = pos 0;
    number = 49 ∷ 48 ∷ [];
    video_state = VideoStateType.voice;
    call_type = CallType.cs;
    call_state = TelCallState.idle;
    is_ecc = false;
    bundle_name = [];
    crs_type = pos 0;
    original_call_type = 0;
    phone_or_watch = pos 0;
    new_call_use_box = pos 0;
    dial_scene = pos 0;
  };
  last_dial_type = pos 0;
  last_is_dialing = true;
  last_is_rtt = false;
  last_is_custom_accessibility = false;
  last_token = [];
  last_phone_index = pos 0;
  dial_call_info = record {
    call_id = pos 0;
    phone_num = [];
    slot_id = pos 0;
    call_type = CallType.cs;
    video_state = pos 0;
    index = pos 0;
    is_rtt = false;
  };
  stored = λ slot. stored;
  latest = λ slot. [];
  log = [];
}

abbrev pub served : Services
served = record {
  has_sim_card = λ _. true;
  is_network_in_service = λ _. true;
  video_call_waiting = λ _. false;
  carrier_vt_config = λ _. false;
}

-- A voice dial of 10 on the first slot.
abbrev pub voice_dial : DialAsked
voice_dial = record {
  number = 49 ∷ 48 ∷ [];
  extras = record {
    dial_type = dial_carrier_type;
    account_id = pos 0;
    call_type = pos 1;
    dial_scene = call_normal;
    video_state = voice_value;
  };
  is_rtt = false;
  bundle_name = [];
  is_custom_accessibility = false;
  token = [];
  phone_index = pos 0;
}
