-- ===== src/Requests/Tests.antt =====
-- Calls that are reported, dialed and hung up.
use telephony_call_manager_m.EventLoop.Queue.{Message, Ring}
use telephony_call_manager_m.EventLoop.Fifo.{IsQueue, window, new_ring-IsQueue}
use telephony_call_manager_m.Callback.Guard.{update_disconnected_cause, guard}
use telephony_call_manager_m.Requests.{run_task}
use telephony_call_manager_m.Requests.Turn.{turn}
use telephony_call_manager_m.Requests.Delivery.{IsPosted, guard-IsDelivered, turn_lem}
use telephony_call_manager_m.Prelude.{◌≡◌, ◌⊎◌, refl, some, none, true, false, [], ◌∷◌, arith}
use telephony_call_manager_m.Prelude.Eq.{◌==◌}
use telephony_call_manager_m.Prelude.Int.{pos}
use telephony_call_manager_m.Prelude.Search.{All, find_if}
use telephony_call_manager_m.Types.{TelCallState, RunningState, Code, call_type_eq}
use telephony_call_manager_m.Samples.{new_cs_call, at_start, call_in, table_of}
use telephony_call_manager_m.Samples.Worlds.{
  willing, idle_helper, report_of, world_of, served, voice_dial,
}
use telephony_call_manager_m.Call.{Call, new_call}
use telephony_call_manager_m.CallTable.{empty_table, allocate, add_one_call_object}
use telephony_call_manager_m.CallTable.Reserve.{Inv}
use telephony_call_manager_m.CallTable.Steps.{empty_table-Inv}
use telephony_call_manager_m.CallTable.Queries.{
  is_call_exist, get_call_state, get_one_call_object_by_index,
  get_one_call_object_by_index_slot_id_and_call_type,
}
use telephony_call_manager_m.Status.{CallDetailInfo}
use telephony_call_manager_m.Number.{is_valid_slot_id}
use telephony_call_manager_m.Prelude.Int.{int_eq}
use telephony_call_manager_m.Types.{running_eq}
use telephony_call_manager_m.Policy.{hang_up_policy}
use telephony_call_manager_m.Service.{World, Event, Request, CellularCallInfo}
use telephony_call_manager_m.Service.Pending.{Task, has_pending_mo, has_pending_hangup}
use telephony_call_manager_m.Carrier.{call_at, supplement_of}
use telephony_call_manager_m.Reports.Diff.{handle_calls_report_info}
use telephony_call_manager_m.Reports.Dialing.{init_index, find_reported, update_dialing_handle}
use telephony_call_manager_m.Reports.Handle.{handle_call_report_info}
use telephony_call_manager_m.Reports.Repeat.{IsSteady, handle_calls_report_info_repeats}
use telephony_call_manager_m.Requests.Control.{hang_up_call, invalid_call_id}
use telephony_call_manager_m.Requests.Checks.{IsRefused, IsCarried, dial_call_cases}
use telephony_call_manager_m.Requests.Pending.{hang_up_call_then_report}
use telephony_call_manager_m.Requests.Whole.{Act, act_all, act_all-Inv}

abbrev nothing : World
nothing = world_of at_start idle_helper []

nothing-Inv : Inv nothing.table
nothing-Inv = empty_table-Inv (new_cs_call (pos 0) false)

abbrev incoming_report : Act
incoming_report = Act.reports (pos 0) (report_of (pos 1) TelCallState.incoming ∷ [])

act_all-Inv_example :
    Inv
      (act_all
        ((willing, incoming_report)
          ∷ (willing, Act.ends)
          ∷ (willing, Act.runs (Task.hang_up_request (pos 1)))
          ∷ (willing, Act.dials served voice_dial)
          ∷ (willing, Act.signals (update_disconnected_cause (pos 16)))
          ∷ (willing, Act.turns)
          ∷ [])
        nothing).table
act_all-Inv_example =
    act_all-Inv
      ((willing, incoming_report)
        ∷ (willing, Act.ends)
        ∷ (willing, Act.runs (Task.hang_up_request (pos 1)))
        ∷ (willing, Act.dials served voice_dial)
        ∷ (willing, Act.signals (update_disconnected_cause (pos 16)))
        ∷ (willing, Act.turns)
        ∷ [])
      nothing nothing-Inv

-- A call that is active, as it was reported.
abbrev active_call : Call
active_call = call_in (pos 1) TelCallState.active RunningState.active

abbrev talking : World
talking = world_of (table_of active_call) idle_helper (report_of (pos 1) TelCallState.active ∷ [])

talking-IsSteady :
    All
      (IsSteady (report_of (pos 1) TelCallState.active ∷ []))
      (report_of (pos 1) TelCallState.active ∷ [])
unfolding find_if
talking-IsSteady = ((refl, refl), tt)

valid : is_valid_slot_id (pos 0) ≡ true
unfolding is_valid_slot_id
valid = refl

handle_calls_report_info_repeats_example :
    let (u, code) =
      handle_calls_report_info willing
        (pos 0)
        (report_of (pos 1) TelCallState.active ∷ [])
        talking in
    (code ≡ Code.success)
    × ((u.table ≡ talking.table)
        × ((u.log ≡ talking.log)
            × ((u.helper ≡ talking.helper)
                × ((u.cs_conference ≡ talking.cs_conference)
                    × (u.ims_conference ≡ talking.ims_conference)))))
handle_calls_report_info_repeats_example =
    handle_calls_report_info_repeats willing (pos 0) (report_of (pos 1) TelCallState.active ∷ [])
      talking valid refl talking-IsSteady

-- A call that is dialed and that the network has not named.
abbrev dialed : World
dialed =
    world_of
      (table_of
        (record (call_in (pos 1) TelCallState.dialing RunningState.dialing) { index = pos 0 }))
      (record idle_helper { pending_mo = true; pending_mo_call_id = pos 1 }) []

dialed_allowed : hang_up_policy (call_at 0 dialed).call_id dialed.table ≡ Code.success
unfolding hang_up_policy is_call_exist get_call_state add_one_call_object allocate new_call
    empty_table
dialed_allowed = refl

dialed_pending : has_pending_mo (call_at 0 dialed).call_id dialed.helper ≡ true
unfolding has_pending_mo add_one_call_object allocate new_call empty_table
dialed_pending = refl

named : ((call_at 0 dialed).call_id == invalid_call_id) ≡ false
unfolding add_one_call_object allocate new_call empty_table
named = refl

-- The stack gives the call its index.
abbrev first_report : CallDetailInfo
first_report = report_of (pos 1) TelCallState.dialing

dialed_known : update_dialing_handle first_report dialed.table ≡ true
unfolding update_dialing_handle add_one_call_object allocate new_call empty_table
    get_one_call_object_by_index_slot_id_and_call_type
dialed_known = refl

dialed_new : find_reported first_report dialed.table ≡ none
unfolding find_reported add_one_call_object allocate new_call empty_table
    get_one_call_object_by_index_slot_id_and_call_type
dialed_new = refl

dialed_first : get_one_call_object_by_index init_index dialed.table ≡ some 0
unfolding get_one_call_object_by_index add_one_call_object allocate new_call empty_table
dialed_first = refl

dialed_type : ((call_at 0 dialed).call_type == first_report.call_type) ≡ true
unfolding add_one_call_object allocate new_call empty_table
dialed_type = refl

hang_up_call_then_report_example :
    let c = call_at 0 dialed in
    let (w1, code) = hang_up_call willing c.call_id dialed in
    let (w2, taken) = handle_call_report_info willing first_report w1 in
    ((code ≡ Code.success) × (w1.log ≡ dialed.log))
    × (taken ≡ Code.success)
    × ((r : CellularCallInfo) × (w2.log
          ≡ Event.sent (Request.hang_up r (supplement_of c.policy_flag)) ∷ dialed.log)
        × (r.call_id ≡ c.call_id)
        × (r.index ≡ first_report.index))
    × (has_pending_hangup c.call_id w2.helper ≡ false)
hang_up_call_then_report_example =
    hang_up_call_then_report willing first_report 0 dialed named dialed_allowed dialed_pending refl
      refl refl dialed_known dialed_new dialed_first dialed_type

dial_call_cases_example :
    IsRefused willing served voice_dial nothing ⊎ IsCarried willing served voice_dial nothing
dial_call_cases_example = dial_call_cases willing served voice_dial nothing

guard-IsDelivered_example :
    IsPosted
      (Task.disconnected_cause (pos 16))
      []
      nothing
      (guard willing (update_disconnected_cause (pos 16)) nothing)
guard-IsDelivered_example =
    guard-IsDelivered willing (update_disconnected_cause (pos 16)) [] nothing refl
      (new_ring-IsQueue 4)

-- The service with the cause in its queue.
abbrev cause : Message Task
cause = Message.async_task (Task.disconnected_cause (pos 16))

abbrev signalled : World
signalled = record nothing {
  loop = record (nothing.loop) {
    ring = record {
      slots = some cause ∷ none ∷ none ∷ none ∷ none ∷ [];
      head = 0;
      count = 1;
      queue_size = 4;
    };
  };
}

signalled-IsQueue : IsQueue signalled.loop.ring (cause ∷ [])
unfolding window
signalled-IsQueue = record {
  sized = refl;
  headed = omega arith;
  counted = omega arith;
  held = refl;
}

turn_lem_example :
    (r : Ring (Message Task)) × (IsQueue r []
      × (turn willing signalled
          ≡ run_task willing
              (Task.disconnected_cause (pos 16))
              (record signalled { loop = record (signalled.loop) { ring = r } })))
turn_lem_example =
    turn_lem willing (Task.disconnected_cause (pos 16)) [] signalled refl signalled-IsQueue
