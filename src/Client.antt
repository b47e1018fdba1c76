-- ===== src/Client.antt =====
-- frameworks/native/src/call_manager_client.cpp and frameworks/native/src/mini/call_manager_proxy.cpp: an
-- application's way to the service. Each request is a synchronous post to the main loop; how the post
-- comes out is an argument. The methods that the proxy answers with `NotSupported` are one function.
pub mod Told
pub mod Registration
pub mod Refusals
pub mod Restart
pub mod Queries
mod Tests
use telephony_call_manager_m.Prelude.{
  ℕ, Bool, true, false, not, ◌&&◌, ◌||◌, List, [], ◌∷◌, Option, none, some, if◌then◌else◌,
}
use telephony_call_manager_m.Types.{Bytes, Code, is_success}
use telephony_call_manager_m.Policy.{Services}
use telephony_call_manager_m.Service.{Env}
use telephony_call_manager_m.AbilityReport.{Registered, un_register_callback}
use telephony_call_manager_m.Manager.{Manager}
use telephony_call_manager_m.Manager.Trusted.{Trust}
use telephony_call_manager_m.Manager.Life.{init, un_init}
use telephony_call_manager_m.Manager.Asks.{Ask, register, un_register, serve}

-- How a synchronous post comes out: the task ran in time; it never ran, for want of a waiter slot or a
-- place in the queue, or since the loop does not run; or it ran when the caller had given up.
pub data Outcome : Type 0 where
  in_time no_place no_loop too_late : Outcome

abbrev pub runs : Outcome → Bool
runs Outcome.in_time = true
runs Outcome.too_late = true
runs _ = false

-- The result of `PostSyncTask`.
abbrev pub code_of : Outcome → Code
code_of Outcome.in_time = Code.success
code_of Outcome.no_loop = Code.uninit
code_of _ = Code.ipc_connect_stub_fail

pub record Client : Type 0 where
  pub is_init : Bool  -- isInit_ of the client
  pub has_proxy : Bool  -- g_callManagerProxy != nullptr
  pub init_status : Bool  -- of the proxy
  pub register_status : Bool
  pub callback : Option ℕ  -- callAbilityCallbackPtr_
  pub closed : List ℕ  -- the callbacks that were closed
  pub manager : Manager

-- The result of the post, or that of the request if the post came out.
abbrev pub result_of : Outcome → Code → Code
result_of Outcome.in_time result = result
result_of o result = code_of o

-- `RunOnService`, of a request that answers with a code.
unfoldable pub run_on_service : Outcome → (Client → Client × Code) → Client → Client × Code
run_on_service o call p =
    let (q, code) = if p.manager.ready then call p else (p, Code.uninit) in
    if not p.init_status then (p, Code.uninit) else (if runs o then q else p, result_of o code)

abbrev pub is_denied : Code → Bool
is_denied Code.permission_err = true
is_denied Code.illegal_use_of_system_api = true
is_denied _ = false

-- A failure of the service, under the proxy's name, if it is not about permissions.
abbrev pub renamed : Code → Code → Code
renamed name code = if is_denied code then code else name

-- `CallAbilityCallback::Close`.
abbrev pub close : Option ℕ → List ℕ → List ℕ
close none cs = cs
close (some k) cs = k ∷ cs

module _ (env : Env) (sv : Services) (t : Trust) where
  unfoldable pub register_on_loop : ℕ → Client → Client × Code
  unfolding serve
  register_on_loop k p =
      let (m, code) = serve env sv t (register (some k)) p.manager in
      if p.register_status
      then (p, Code.register_callback_fail)
      else if is_success code
      then (record p { callback = some k; register_status = true; manager = m }, Code.success)
      else (record p { manager = m }, renamed Code.register_callback_fail code)

  unfoldable pub un_register_on_loop : Client → Client × Code
  unfolding serve
  un_register_on_loop p =
      let (m, code) = serve env sv t un_register p.manager in
      if not p.register_status
      then (p, Code.register_callback_fail)
      else if is_success code
      then (
        record p {
          callback = none;
          register_status = false;
          closed = close p.callback p.closed;
          manager = m;
        },
        Code.success,
      )
      else (record p { manager = m }, renamed Code.unregister_callback_fail code)

  unfoldable pub ask_on_loop : Ask → Client → Client × Code
  unfolding serve
  ask_on_loop a p = let (m, code) = serve env sv t a p.manager in (record p { manager = m }, code)

  -- The proxy's methods; a null callback is refused before the post.
  unfoldable pub proxy_ask : Outcome → Ask → Client → Client × Code
  unfolding run_on_service register_on_loop un_register_on_loop ask_on_loop
  proxy_ask o (register none) p =
      if p.init_status then (p, Code.local_ptr_null) else (p, Code.uninit)
  proxy_ask o (register (some k)) p = run_on_service o (register_on_loop k) p
  proxy_ask o un_register p = run_on_service o un_register_on_loop p
  proxy_ask o a p = run_on_service o (ask_on_loop a) p

  unfoldable pub client_ask : Outcome → Ask → Client → Client × Code
  unfolding proxy_ask
  client_ask o a p = if p.has_proxy then proxy_ask o a p else (p, Code.uninit)

-- A method that this build does not support.
unfoldable pub client_not_supported : Client → Client × Code
client_not_supported p = (p, if p.has_proxy then Code.function_not_supported else Code.uninit)

unfoldable pub client_init : Client → Client
client_init p =
    if p.is_init then p else record p { is_init = true; has_proxy = true; init_status = true }

-- The task of `UnInit`.
unfoldable pub give_up_callback : Client → Client
unfolding un_register_callback
give_up_callback p = elim p.callback [
  | none ↦ record p { register_status = false }
  | some k ↦ record p {
    callback = none;
    register_status = false;
    closed = k ∷ p.closed;
    manager = record (p.manager) { callback = un_register_callback k p.manager.callback };
  }
]

unfoldable pub proxy_un_init : Outcome → Client → Client
unfolding give_up_callback
proxy_un_init o p =
    let q = record p { init_status = false } in
    if p.init_status then if runs o then give_up_callback q else q else p

unfoldable pub client_un_init : Outcome → Client → Client
unfolding proxy_un_init
client_un_init o p = if p.is_init then record (proxy_un_init o p) { is_init = false } else p

-- `CallManagerServiceMiniStart` and `CallManagerServiceMiniStop`, on the loop.
unfoldable pub service_start : Client → Client
unfolding init
service_start p = record p { manager = (init p.manager).0 }

unfoldable pub service_stop : Env → Trust → Client → Client
unfolding un_init
service_stop env t p = record p { manager = un_init env t.bundle_name p.manager }
