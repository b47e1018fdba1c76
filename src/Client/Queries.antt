-- ===== src/Client/Queries.antt =====
-- The queries of the client, which change nothing: a synchronous post with a value for an answer.
use telephony_call_manager_m.Prelude.{Bool, false, if◌then◌else◌}
use telephony_call_manager_m.Types.{Code}
use telephony_call_manager_m.Manager.{Manager}
use telephony_call_manager_m.Manager.Queries.{Reply, said, failed, has_call_entry}
use telephony_call_manager_m.Client.{Outcome, Client, code_of}

-- A post in time has the answer of a service that is ready.
unfoldable pub proxy_query : {A : Type 0} → Outcome → (Manager → Reply A) → Client → Reply A
proxy_query Outcome.in_time call p =
    if p.init_status
    then if p.manager.ready then call p.manager else failed Code.uninit
    else failed Code.uninit
proxy_query o call p = if p.init_status then failed (code_of o) else failed Code.uninit

unfoldable pub client_query : {A : Type 0} → Outcome → (Manager → Reply A) → Client → Reply A
client_query o call p = if p.has_proxy then proxy_query o call p else failed Code.uninit

abbrev value_or_false : Reply Bool → Bool
value_or_false (said b) = b
value_or_false (failed code) = false

-- `HasCall`, which has no code for a failure.
unfoldable pub client_has_call : Outcome → Bool → Client → Bool
client_has_call o with_voip p =
    value_or_false (client_query o (λ m. said (has_call_entry with_voip m)) p)
