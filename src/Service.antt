-- ===== src/Service.antt =====
-- What the service's singletons hold together, and the two ways out of it: the requests to the cellular
-- stack (services/telephony_interaction/src/mini/cellular_call_connection.cpp) and the notices to the
-- observers (services/call/src/mini/call_control_manager.cpp, call_state_listener.cpp). Both are written
-- to a log, newest first. What the stack answers may depend on everything that was sent before.
pub mod Pending
use telephony_call_manager_m.Prelude.{
  ℕ, Bool, true, false, List, [], ◌∷◌, Option, none, some, if◌then◌else◌, leb, length,
}
use telephony_call_manager_m.Prelude.Int.{ℤ, pos}
use telephony_call_manager_m.Types.{
  TelCallState, CallType, VideoStateType, CallClass, Bytes, Code, video_code,
}
use telephony_call_manager_m.Call.{Clock, Call, DialParaInfo, set_tel_call_state}
use telephony_call_manager_m.CallTable.{CallTable, modify, update_one_call_object_by_call_id}
use telephony_call_manager_m.CallTable.Scans.{has_cellular_call_exist}
use telephony_call_manager_m.Conference.{Conference}
use telephony_call_manager_m.EventLoop.{Loop}
use telephony_call_manager_m.Status.{CallDetailInfo}
use telephony_call_manager_m.Service.Pending.{Helper, Task}

-- `PackCellularCallInfo` of a call and of a dial; `accountId` is the slot once more.
pub record CellularCallInfo : Type 0 where
  pub call_id : ℤ
  pub phone_num : Bytes
  pub slot_id : ℤ
  pub call_type : CallType
  pub video_state : ℤ
  pub index : ℤ
  pub is_rtt : Bool

-- `CallSupplementType`, the values that are used.
pub data Supplement : Type 0 where
  default hang_up_hold_wait hang_up_active : Supplement

-- The methods of the cellular stack that the calls use.
pub data Request : Type 0 where
  dial : CellularCallInfo → Request
  answer : CellularCallInfo → Request
  hang_up : CellularCallInfo → Supplement → Request
  hold : CellularCallInfo → Request
  un_hold : CellularCallInfo → Request
  switch : CellularCallInfo → Request
  set_mute : ℤ → ℤ → Request
  combine_conference : CellularCallInfo → Request
  separate_conference : CellularCallInfo → Request
  kick_out_from_conference : CellularCallInfo → Request
  start_dtmf : ℕ → CellularCallInfo → Request
  stop_dtmf : CellularCallInfo → Request
  post_dial_proceed : CellularCallInfo → Bool → Request

-- What leaves the service. A notice names the call by its address; that of a new state says too
-- whether a cellular call was there, which the audio manager asks for at that moment. The local alerting
-- is told to the report proxy alone.
pub data Event : Type 0 where
  sent : Request → Event
  new_call_created : ℕ → Event
  state_updated : ℕ → TelCallState → TelCallState → Bool → Event
  incoming_answered : ℕ → Event
  incoming_rejected : ℕ → Bool → Bytes → Event
  call_destroyed : ℤ → Event
  event_updated : ℕ → Bytes → Event
  local_alerting : Event

pub record World : Type 0 where
  pub table : CallTable
  pub cs_conference : Conference
  pub ims_conference : Conference
  pub helper : Helper
  pub loop : Loop Task
  pub listening : Bool  -- callStateListenerPtr_ != nullptr
  pub reporting : Bool  -- callStatusManagerPtr_ != nullptr
  pub last_dial : DialParaInfo  -- dialSrcInfo_, with the scene in extras_
  pub last_dial_type : ℤ  -- dialSrcInfo_.dialType
  pub last_is_dialing : Bool  -- dialSrcInfo_.isDialing
  pub last_is_rtt : Bool  -- dialSrcInfo_.isRTT
  pub last_is_custom_accessibility : Bool  -- dialSrcInfo_.isCustomAccessibility
  pub last_token : Bytes  -- dialSrcInfo_.token
  pub last_phone_index : ℤ  -- dialSrcInfo_.phoneIndex
  pub dial_call_info : CellularCallInfo  -- dialCallInfo_
  pub stored : ℤ → List CallDetailInfo  -- callDetailsInfo_
  pub latest : ℤ → List CallDetailInfo  -- tmpCallDetailsInfo_
  pub log : List Event

-- The time, the clock of the main loop, and the cellular stack: whether it is registered, its answers,
-- and which numbers are emergency numbers on a slot.
pub record Env : Type 0 where
  pub now : Clock
  pub freq : ℕ
  pub tick : ℕ
  pub ms_to_ticks : ℕ → ℕ
  pub registered : List Event → Bool
  pub answer : List Event → Request → Code
  pub is_emergency : Bytes → ℤ → Bool

unfoldable pub send : Env → Request → World → World × Code
send e r w =
    if e.registered w.log
    then (record w { log = sent r ∷ w.log }, e.answer w.log r)
    else (w, Code.ipc_connect_stub_fail)

-- The part of `PackCellularCallInfo` of a call before the number; a number that is too long is left
-- out, which the callers only log.
unfoldable pub pack_cellular_call_info : Call → CellularCallInfo × Code
pack_cellular_call_info c =
    let fits = leb (length c.account_number) 255 in
    (
      record {
        call_id = c.call_id;
        phone_num = if fits then c.account_number else [];
        slot_id = c.slot_id;
        call_type = c.call_type;
        video_state = pos (video_code c.video_state);
        index = c.index;
        is_rtt = false;
      },
      if fits then Code.success else Code.number_out_of_range,
    )

-- An assignment to the call at an address.
unfoldable pub edit : ℕ → (Call → Call) → World → World
edit p f w = record w { table = modify p f w.table }

unfoldable pub emit : Event → World → World
emit v w = if w.listening then record w { log = v ∷ w.log } else w

-- `NotifyNewCallCreated` of a call that is there.
unfoldable pub notify_new_call_created : ℕ → World → World
unfolding emit
notify_new_call_created p w = emit (new_call_created p) w

-- `NotifyCallStateUpdated` of a call that is there.
unfoldable pub notify_call_state_updated : ℕ → TelCallState → TelCallState → World → World × Bool
unfolding emit
notify_call_state_updated p prior next w =
    (emit (state_updated p prior next (has_cellular_call_exist w.table)) w, w.listening)

-- `NotifyCallDestroyed`, by its reason.
unfoldable pub notify_call_destroyed : ℤ → World → World × Bool
unfolding emit
notify_call_destroyed reason w = (emit (call_destroyed reason) w, w.listening)
