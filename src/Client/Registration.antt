-- ===== src/Client/Registration.antt =====
-- The application's callback, of which the proxy of the client and the report proxy of the service each keep
-- an account: the two under any use of the client, and any stop and start of the service.
use telephony_call_manager_m.Prelude.{
  ℕ, ◌≡◌, sym, ◌∙◌, refl, false, not, List, [], ◌∷◌, none, some, if◌then◌else◌, Bool-cases, inl,
  inr,
}
use telephony_call_manager_m.Prelude.Eq.{nat_eq}
use telephony_call_manager_m.Types.{Bytes, Code, is_success, bytes_eq}
use telephony_call_manager_m.Policy.{Services}
use telephony_call_manager_m.Service.{Env}
use telephony_call_manager_m.Prelude.Int.{int_eq}
use telephony_call_manager_m.AbilityReport.{register_callback, un_register_bundle}
use telephony_call_manager_m.Manager.{
  register_callback_entry, un_register_callback_entry, any_of, register_callback_entry,
  un_register_callback_entry,
}
use telephony_call_manager_m.Manager.Trusted.{Trust}
use telephony_call_manager_m.Manager.Keeps.{serve-KeepsCallback, is_about_callback}
use telephony_call_manager_m.Manager.Asks.{
  Ask, register, un_register, dial, answer, reject, hang_up, hold, un_hold, switch, end,
  answer_ringing, reject_ringing, hang_up_current, serve, needs_one_of,
}
use telephony_call_manager_m.Client.{
  result_of, renamed, close, Outcome, Client, runs, client_ask, client_init, client_un_init,
  register_on_loop, un_register_on_loop, ask_on_loop, run_on_service, proxy_ask, service_start,
  service_stop,
}
use telephony_call_manager_m.Client.Told.{
  if_IsTold, client_init-IsTold, service_start-IsTold, service_stop-IsTold, none_told,
  client_un_init-IsTold, guarded-Gone, un_register_bundle-Gone, if_result_IsTold, IsTold,
}

-- What can happen to an application and its service.
pub data Use : Type 0 where
  init_it start stop : Use
  un_init_it : Outcome → Use
  ask : Outcome → Ask → Use

unfoldable pub use_one : Env → Services → Trust → Use → Client → Client
use_one env sv t init_it p = client_init p
use_one env sv t start p = service_start p
use_one env sv t stop p = service_stop env t p
use_one env sv t (un_init_it o) p = client_un_init o p
use_one env sv t (ask o a) p = (client_ask env sv t o a p).0

unfoldable pub use_all : Env → Services → Trust → List Use → Client → Client
use_all env sv t [] p = p
use_all env sv t (u ∷ us) p = use_all env sv t us (use_one env sv t u p)

module _ (env : Env) (sv : Services) (t : Trust) where
  register_on_loop-IsTold :
      (k : ℕ) (p : Client)
      → IsTold t.bundle_name p
      → IsTold t.bundle_name (register_on_loop env sv t k p).0
  unfolding register_on_loop serve register_callback_entry register_callback
  register_on_loop-IsTold k p a = elim (Bool-cases p.register_status) [
    | inl e ↦ rw e (rw e at a)
    | inr e ↦ elim (Bool-cases (any_of t (needs_one_of (register (some k))))) [
      | inl f ↦
          rw (e, f, none_told t.bundle_name p.callback p.manager.callback (sym a.0 ∙ e) a.1)
            (refl, (refl, refl))
      | inr f ↦ rw (e, f) (rw e at a)
    ]
  ]

  un_register_on_loop-IsTold :
      (p : Client)
      → IsTold t.bundle_name p
      → IsTold t.bundle_name (un_register_on_loop env sv t p).0
  unfolding un_register_on_loop serve un_register_callback_entry un_register_bundle
  un_register_on_loop-IsTold p a =
      let b = t.bundle_name in
      let (m, code) = serve env sv t un_register p.manager in
      let (gone, kept) =
        guarded-Gone b p.callback t.is_system_app Code.illegal_use_of_system_api p.manager _ refl
          a.1
          (guarded-Gone b p.callback (any_of t (needs_one_of un_register)) Code.permission_err
            p.manager _ refl a.1
            (un_register_bundle-Gone b p.callback p.manager p.manager.callback a.1)) in
      if_result_IsTold b (not p.register_status) (p, Code.register_callback_fail) _ (λ e. a)
        (λ e.
          if_result_IsTold b (is_success code)
            (
              record p {
                callback = none;
                register_status = false;
                closed = close p.callback p.closed;
                manager = m;
              },
              Code.success,
            )
            (record p { manager = m }, renamed Code.unregister_callback_fail code)
            (λ f. (refl, gone f)) (λ f. (a.0, kept)))

  ask_on_loop-IsTold :
      (a : Ask) (p : Client)
      → is_about_callback a ≡ false
      → IsTold t.bundle_name p
      → IsTold t.bundle_name (ask_on_loop env sv t a p).0
  unfolding ask_on_loop
  ask_on_loop-IsTold a p e k = (k.0, rw ((serve-KeepsCallback env sv t a p.manager e).kept) k.1)

run_on_service-IsTold :
    (b : Bytes) (o : Outcome) (call : Client → Client × Code) (p : Client)
    → IsTold b p
    → IsTold b (call p).0
    → IsTold b (run_on_service o call p).0
unfolding run_on_service
run_on_service-IsTold b o call p a k =
    let x = if p.manager.ready then call p else (p, Code.uninit) in
    if_result_IsTold b (not p.init_status) (p, Code.uninit)
      (if runs o then x.0 else p, result_of o x.1) (λ e. a)
      (λ e.
        if_IsTold b (runs o) x.0 p
          (if_result_IsTold b p.manager.ready (call p) (p, Code.uninit) (λ f. k) (λ f. a)) a)

module _ (env : Env) (sv : Services) (t : Trust) (o : Outcome) where
  plain :
      (a : Ask) (p : Client)
      → is_about_callback a ≡ false
      → IsTold t.bundle_name p
      → IsTold t.bundle_name (run_on_service o (ask_on_loop env sv t a) p).0
  plain a p e k =
      run_on_service-IsTold t.bundle_name o (ask_on_loop env sv t a) p k
        (ask_on_loop-IsTold env sv t a p e k)

  proxy_ask-IsTold :
      (a : Ask) (p : Client)
      → IsTold t.bundle_name p
      → IsTold t.bundle_name (proxy_ask env sv t o a p).0
  unfolding proxy_ask
  proxy_ask-IsTold (register none) p k =
      if_result_IsTold t.bundle_name p.init_status (p, Code.local_ptr_null) (p, Code.uninit)
        (λ e. k) (λ e. k)
  proxy_ask-IsTold (register (some c)) p k =
      run_on_service-IsTold t.bundle_name o (register_on_loop env sv t c) p k
        (register_on_loop-IsTold env sv t c p k)
  proxy_ask-IsTold un_register p k =
      run_on_service-IsTold t.bundle_name o (un_register_on_loop env sv t) p k
        (un_register_on_loop-IsTold env sv t p k)
  proxy_ask-IsTold (dial number x) p k = plain (dial number x) p refl k
  proxy_ask-IsTold (answer id v r) p k = plain (answer id v r) p refl k
  proxy_ask-IsTold (reject id m text) p k = plain (reject id m text) p refl k
  proxy_ask-IsTold (hang_up id) p k = plain (hang_up id) p refl k
  proxy_ask-IsTold (hold id) p k = plain (hold id) p refl k
  proxy_ask-IsTold (un_hold id) p k = plain (un_hold id) p refl k
  proxy_ask-IsTold (switch id) p k = plain (switch id) p refl k
  proxy_ask-IsTold end p k = plain end p refl k
  proxy_ask-IsTold answer_ringing p k = plain answer_ringing p refl k
  proxy_ask-IsTold reject_ringing p k = plain reject_ringing p refl k
  proxy_ask-IsTold hang_up_current p k = plain hang_up_current p refl k

use_one-IsTold :
    (env : Env) (sv : Services) (t : Trust) (u : Use) (p : Client)
    → IsTold t.bundle_name p
    → IsTold t.bundle_name (use_one env sv t u p)
unfolding use_one client_ask
use_one-IsTold env sv t init_it p k = client_init-IsTold t.bundle_name p k
use_one-IsTold env sv t start p k = service_start-IsTold t.bundle_name p k
use_one-IsTold env sv t stop p k = service_stop-IsTold env t t.bundle_name p k
use_one-IsTold env sv t (un_init_it o) p k = client_un_init-IsTold t.bundle_name o p k
use_one-IsTold env sv t (ask o a) p k =
    if_result_IsTold t.bundle_name p.has_proxy (proxy_ask env sv t o a p) (p, Code.uninit)
      (λ e. proxy_ask-IsTold env sv t o a p k) (λ e. k)

-- From a client and a service that agree on the callback, after any requests, with any outcomes of their
-- posts, any starts and ends of the client and any starts and stops of the service: the client counts as
-- registered exactly if it holds a callback, and the service tells nobody, or the callback that the client
-- holds, under the client's bundle.
pub use_all-IsTold :
    (env : Env) (sv : Services) (t : Trust) (us : List Use) (p : Client)
    → IsTold t.bundle_name p
    → IsTold t.bundle_name (use_all env sv t us p)
unfolding use_all
use_all-IsTold env sv t [] p k = k
use_all-IsTold env sv t (u ∷ us) p k =
    use_all-IsTold env sv t us (use_one env sv t u p) (use_one-IsTold env sv t u p k)
