-- ===== src/Client/Restart.antt =====
-- A client across a stop and a start of the service.
use telephony_call_manager_m.Prelude.{
  ℕ, ◌≡◌, ◌∙◌, refl, Bool, true, false, not, Option, none, some, if◌then◌else◌, Bool-cases, inl,
  inr,
}
use telephony_call_manager_m.Prelude.Eq.{==_refl, nat_eq}
use telephony_call_manager_m.Types.{Bytes, Code, is_success, bytes_eq}
use telephony_call_manager_m.Policy.{Services}
use telephony_call_manager_m.Service.{Env}
use telephony_call_manager_m.AbilityReport.{Registered, un_register_bundle}
use telephony_call_manager_m.Manager.{Manager, guarded, any_of, un_register_callback_entry}
use telephony_call_manager_m.Manager.Trusted.{Trust}
use telephony_call_manager_m.Manager.Life.{init, un_init}
use telephony_call_manager_m.Manager.Asks.{register, un_register, needs_one_of, serve}
use telephony_call_manager_m.Client.{
  Outcome, Client, runs, result_of, renamed, run_on_service, register_on_loop, un_register_on_loop,
  proxy_ask, client_ask, service_start, service_stop,
}
use telephony_call_manager_m.Client.Refusals.{renamed_fails}
use telephony_call_manager_m.Client.Told.{IsTold, Agrees, told_bundle}

-- The request fails and leaves the client's account of its callback.
abbrev pub IsStuck : Client → Client × Code → Type 0
IsStuck p (q, code) =
    (is_success code ≡ false)
    × ((q.register_status ≡ p.register_status)
        × ((q.callback ≡ p.callback) × (q.manager.callback ≡ p.manager.callback)))

answered-IsStuck :
    (o : Outcome) (p : Client) (x : Client × Code)
    → IsStuck p x
    → IsStuck p (if runs o then x.0 else p, result_of o x.1)
answered-IsStuck Outcome.in_time p x k = k
answered-IsStuck Outcome.no_place p x k = (refl, (refl, (refl, refl)))
answered-IsStuck Outcome.no_loop p x k = (refl, (refl, (refl, refl)))
answered-IsStuck Outcome.too_late p x k = (refl, k.1)

if_IsStuck :
    (p : Client) (c : Bool) (x y : Client × Code)
    → (c ≡ true → IsStuck p x)
    → (c ≡ false → IsStuck p y)
    → IsStuck p (if c then x else y)
if_IsStuck p true x y k l = k refl
if_IsStuck p false x y k l = l refl

run_on_service-IsStuck :
    (o : Outcome) (call : Client → Client × Code) (p : Client)
    → IsStuck p (call p)
    → IsStuck p (run_on_service o call p)
unfolding run_on_service
run_on_service-IsStuck o call p k =
    let x = if p.manager.ready then call p else (p, Code.uninit) in
    if_IsStuck p (not p.init_status) (p, Code.uninit) (if runs o then x.0 else p, result_of o x.1)
      (λ e. (refl, (refl, (refl, refl))))
      (λ e. answered-IsStuck o p x (
        if_IsStuck p p.manager.ready (call p) (p, Code.uninit) (λ g. k)
          (λ g. (refl, (refl, (refl, refl))))))

-- The service has nobody to tell: the entry has nothing to take away.
abbrev IsIdle : Manager → Manager × Code → Type 0
IsIdle m (u, code) = (is_success code ≡ false) × (u.callback ≡ m.callback)

guarded-IsIdle :
    (ok : Bool) (code : Code) (m : Manager) (next : Manager × Code)
    → is_success code ≡ false
    → IsIdle m next
    → IsIdle m (guarded ok code m next)
guarded-IsIdle true code m next e k = k
guarded-IsIdle false code m next e k = (e, refl)

un_register-IsIdle :
    (env : Env) (sv : Services) (t : Trust) (m : Manager)
    → m.callback ≡ none
    → IsIdle m (serve env sv t un_register m)
unfolding serve un_register_callback_entry un_register_bundle
un_register-IsIdle env sv t m n =
    guarded-IsIdle t.is_system_app Code.illegal_use_of_system_api m _ refl (
      guarded-IsIdle (any_of t (needs_one_of un_register)) Code.permission_err m _ refl
        (rw n (refl, refl)))

module _ (env : Env) (sv : Services) (t : Trust) (o : Outcome) (p : Client) where
  register_again :
      (k : ℕ) → p.register_status ≡ true → IsStuck p (client_ask env sv t o (register (some k)) p)
  unfolding client_ask proxy_ask register_on_loop
  register_again k s =
      if_IsStuck p p.has_proxy (proxy_ask env sv t o (register (some k)) p) (p, Code.uninit)
        (λ h. run_on_service-IsStuck o (register_on_loop env sv t k) p (
          if_IsStuck p p.register_status (p, Code.register_callback_fail) _
            (λ e. (refl, (refl, (refl, refl)))) (λ e. cc)))
        (λ h. (refl, (refl, (refl, refl))))

  un_register_in_vain : p.manager.callback ≡ none → IsStuck p (client_ask env sv t o un_register p)
  unfolding client_ask proxy_ask un_register_on_loop
  un_register_in_vain n =
      let (fails, same) = un_register-IsIdle env sv t p.manager n in
      let (m, code) = serve env sv t un_register p.manager in
      if_IsStuck p p.has_proxy (proxy_ask env sv t o un_register p) (p, Code.uninit)
        (λ h. run_on_service-IsStuck o (un_register_on_loop env sv t) p (
          if_IsStuck p (not p.register_status) (p, Code.register_callback_fail) _
            (λ e. (refl, (refl, (refl, refl))))
            (λ e.
              if_IsStuck p (is_success code) _
                (record p { manager = m }, renamed Code.unregister_callback_fail code) (λ f. cc)
                (λ f. (
                  renamed_fails Code.unregister_callback_fail code refl fails,
                  (refl, (refl, same)),
                )))))
        (λ h. (refl, (refl, (refl, refl))))

-- The service forgets the callback of the client's own bundle.
forgets :
    (b : Bytes) (o : Option ℕ) (r : Option Registered)
    → Agrees b o r
    → (un_register_bundle b r).0 ≡ none
unfolding un_register_bundle
forgets b o none a = refl
forgets b o (some r) a = rw (told_bundle b o r a, ==_refl b) refl

start_keeps : (p : Client) → (service_start p).manager.callback ≡ p.manager.callback
unfolding service_start init
start_keeps p = elim (Bool-cases p.manager.ready) [ inl e ↦ rw e refl | inr e ↦ rw e refl ]

stop_forgets :
    (env : Env) (t : Trust) (p : Client)
    → p.manager.ready ≡ true
    → IsTold t.bundle_name p
    → (service_stop env t p).manager.callback ≡ none
unfolding service_stop un_init
stop_forgets env t p ready k = rw ready (forgets t.bundle_name p.callback p.manager.callback k.1)

-- A client has registered a callback, and the ready service stops and starts again, in agreement with it.
-- Then the service has nobody to tell, and the client can neither register a callback nor take its own back,
-- however the posts come out: both requests fail and leave the account of the callback, so that the next ones
-- fail too.
pub restart_strands :
    (env : Env) (sv : Services) (t : Trust) (o : Outcome) (k : ℕ) (p : Client)
    → p.manager.ready ≡ true
    → p.register_status ≡ true
    → IsTold t.bundle_name p
    → let q = service_start (service_stop env t p) in
      (q.manager.callback ≡ none)
      × (IsStuck q (client_ask env sv t o (register (some k)) q)
          × IsStuck q (client_ask env sv t o un_register q))
unfolding service_start service_stop
restart_strands env sv t o k p ready status a =
    let q = service_start (service_stop env t p) in
    let none_left : q.manager.callback ≡ none =
      start_keeps (service_stop env t p) ∙ stop_forgets env t p ready a in
    (none_left, (register_again env sv t o q k status, un_register_in_vain env sv t o q none_left))
