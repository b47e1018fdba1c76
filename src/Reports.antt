-- ===== src/Reports.antt =====
-- services/call/src/mini/call_status_manager.cpp and call_status_policy.cpp: what the service does with
-- the network's reports. The state is the one of Service.antt; a handler returns it with its result.
pub mod Calls
pub mod Dialing
pub mod Disconnect
pub mod Handle
pub mod Diff
pub mod Repeat
pub mod Ends
pub mod Keeps
pub mod DialingKeeps
pub mod DisconnectKeeps
pub mod IncomingKeeps
pub mod HandleKeeps
