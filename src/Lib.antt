-- ===== src/Lib.antt =====
-- A model of the mini call manager: the phone-call service of a small device, with one main loop, a
-- table of at most five calls, and a cellular stack that answers its requests and reports states.
--
-- The parts and where they are modelled:
--   Types: the enums of interfaces/innerkits/call_manager_base.h and the result codes. A code is known
--     by its name; the codes that no model returns are one constructor with a number.
--   Call: services/call/src/mini/call_base.cpp, a call object, with the fields of carrier_call.cpp. A
--     method that assigns to members returns the new record with its result. `Clock` is what `time` answers
--     within one operation, first and then. Call/Report is about one
--     report of the network, Call/Timeline about a whole life of reports and local steps.
--   CallTable: services/call/src/mini/call_object_manager.cpp. Objects live in a heap and the table is
--     a list of addresses, so an object that a handler holds is the one in the table. CallTable/Queries
--     and CallTable/Scans hold the questions, the other children the invariant, the runs, lookup, the
--     limits and the choice of the foreground call.
--   Policy: services/call/src/mini/call_policy.cpp, on the table. What the cellular stack and the core
--     service answer is the parameter `Services`, four functions of the slot.
--   Status: services/call/src/mini/call_status_manager.cpp, the replacement of a call object when the
--     network moves the call between CS and IMS.
--   Conference: services/call/src/mini/conference_base.cpp, cs_conference.cpp, ims_conference.cpp, and
--     the conference requests of cs_call.cpp and ims_call.cpp. `std::set` is an increasing list
--     (Prelude/IdSet). How an id is printed is a parameter.
--   EventLoop: utils/mini/src/los_event_handler.cpp, when it drives itself. EventLoop/Queue is the
--     ring, EventLoop/Fifo the queue that it implements, EventLoop/Tick the wrapping clock,
--     EventLoop/Order and EventLoop/Due the table of delayed tasks.
--   PacMap: utils/mini/src/pac_map.cpp, the typed map of dial extras.
--   Number: utils/mini/src/call_number_utils.cpp, the slot test and the clean-up of dial strings.
--   Samples: calls and tables for the tests.
--
--   Service: what the service's singletons hold together, the requests to the cellular stack
--     (services/telephony_interaction/src/mini/cellular_call_connection.cpp) and the notices to the
--     observers, both a log. Service/Pending is the flags of call_request_event_handler_helper.cpp.
--   Carrier: services/call/src/mini/carrier_call.cpp, the requests of a call to the stack.
--   Reports: the rest of call_status_manager.cpp with call_status_policy.cpp. Reports/Calls, Dialing,
--     Disconnect and Handle are the handlers of one state each, Reports/Diff compares two reports of a
--     slot; the children whose names end in Keeps carry the invariant of the table through them.
--   Requests: call_request_process.cpp, call_request_handler.cpp and call_control_manager.cpp of
--     services/call/src/mini. Requests/Entry is the entry of a dial, Requests/Control the other
--     entries, Requests/Dial the posted dial, Requests/Whole the service under requests and reports in
--     any order, Requests/Pending the postponed hang-up, Requests/Dialed the first report of a dialed
--     call. The extras of a dial that the policy and the packaging read are a record.
--   Audio: services/audio/src/mini/audio_control_manager.cpp. The driver is a parameter. Audio/Flags is about
--     the manager's flags, Audio/Tones about the commands that the driver was sent.
--   Utf: utils/mini/src/string_ex.cpp, the conversion between UTF-8 and UTF-16.
--   Status/Reported, Status/Decoded: a raw report of the cellular stack, whose fields may hold anything, and
--     its conversion in services/telephony_interaction/src/mini/call_status_callback.cpp.
--   Callback: call_status_callback.cpp and report_call_info_handler.cpp of the same directory, and the events
--     and causes of call_status_manager.cpp. Callback/Guard is call_status_callback_guard.cpp, the entry of
--     the stack; Callback/Keeps carries the invariant of the table through both.
--   Requests/Turn: one turn of the main loop on the tasks of the service; Requests/Delivery follows a report
--     from the guard into the queue and from the queue to its handler.
--   EventLoop/Sync: a synchronous post of los_event_handler.cpp as a step relation: callers, the loop and the
--     timeouts interleave freely on one waiter slot. EventLoop/Sync/Owner is its invariant.
--   AbilityReport: services/call_report/src/mini/call_ability_report_proxy.cpp, the one callback that an
--     application registers and what is posted to it.
--   Manager: services/call_manager_service/src/mini/call_manager_service.cpp, with
--     utils/mini/src/call_permission_adapter.cpp in Manager/Trusted: every request behind its checks.
--     Manager/Life is its start and stop, Manager/Queries what it says of the table.
--   Client: frameworks/native/src/call_manager_client.cpp and src/mini/call_manager_proxy.cpp of the same
--     directory. How a synchronous post comes out is an argument; Client/Told and Client/Registration are
--     about the callback, Client/Refusals and Client/Restart about requests that come to nothing.
--   Registry: utils/mini/src/tel_mini_registry.cpp, the pointer to the cellular stack and the listeners that
--     wait for it. The table of listeners has any length; the source gives it two places.
--   Samples/Worlds: a service with one call, for the tests.
--
-- How they interact: the policies read the table; the status handlers set states of objects in the
-- table, add and delete objects, and drive the conferences; requests and reports run as tasks of the
-- main loop, one at a time, so an operation here is one state change and a run is a sequence of them.
--
-- The control manager checks a request and posts it as a `Task`; the task finds its call, asks the
-- carrier, and the stack's next report of the slot moves the call. What the stack, the audio driver and
-- the emergency numbers answer is a parameter (`Env`, `Driver`), and an answer may depend on everything
-- that was sent before.
--
-- An application's request goes from the client through a synchronous post to an entry of the service, which
-- checks the caller and hands it to the control manager. A report goes from the guard, if it is valid, into
-- the queue of the main loop, and a turn of the loop hands it to the status manager; the client's callback is
-- told through the report proxy.
--
-- Bounds: a loop of the source that runs over a list is a recursion on it. Three run on fuel. The decoder of
-- UTF-8 takes one round for a byte, and each round moves on by one byte at least. The end of a call may
-- start a dial that fails, which ends a call once more; the flag that starts it is cleared before, so two
-- rounds are enough, and more give the same (Reports/Ends). The source only ever assigns false to that flag,
-- `needWaitHold_`, so the second round is code that the program does not reach. The loop over the granted permissions takes one round for an item, and has one for
-- every byte of the list and one more. Ticks and task ids are numbers below 2 ^ 32 with the wrap written
-- out, bytes and UTF-16 units are in range by hypothesis. Call ids do not overflow, and allocation does not
-- fail. The numbers that a waiter slot gives its callers do not come round. The ends of
-- the ringing and of the call are stamped from two readings of the time, as in the code; where the handler of
-- one report changes several calls or stamps a conference, they get the same readings.
--
-- Not modelled: the query of an emergency number, the methods of the client that answer that they are not
-- supported (one function stands for them) and its transfer controller; failures of the kernel objects when
-- the loop starts, and what a stop of the loop waits for; an externally driven loop; the registries of the
-- core service and of the audio driver, which hold one pointer each, and the reference counts; mutexes
-- outside the synchronous post, since one task runs at a time; the bindings to the operating systems; the
-- attributes of a call that only applications read; logging.
pub mod AbilityReport
pub mod Audio
pub mod Call
pub mod CallTable
pub mod Callback
pub mod Carrier
pub mod Client
pub mod Conference
pub mod EventLoop
pub mod Manager
pub mod Number
pub mod PacMap
pub mod Policy
pub mod Prelude
pub mod Registry
pub mod Reports
pub mod Requests
pub mod Samples
pub mod Service
pub mod Status
pub mod Types
pub mod Utf
