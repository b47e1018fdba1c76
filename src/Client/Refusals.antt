-- ===== src/Client/Refusals.antt =====
-- The requests of a client that come to nothing.
use telephony_call_manager_m.Prelude.{
  ℕ, ◌≡◌, ap, refl, Bool, true, false, not, ◌&&◌, none, some, if◌then◌else◌, arith,
}
use telephony_call_manager_m.Prelude.Eq.{nat_eq}
use telephony_call_manager_m.Types.{Code, is_success, bytes_eq}
use telephony_call_manager_m.Policy.{Services}
use telephony_call_manager_m.Service.{Env}
use telephony_call_manager_m.Manager.Trusted.{Trust}
use telephony_call_manager_m.Manager.Asks.{
  Ask, register, un_register, dial, answer, reject, hang_up, hold, un_hold, switch, end,
  answer_ringing, reject_ringing, hang_up_current, serve, is_permitted, serve-IsRefused,
}
use telephony_call_manager_m.Client.{
  Outcome, Client, runs, result_of, renamed, run_on_service, register_on_loop, un_register_on_loop,
  ask_on_loop, proxy_ask, client_ask,
}

-- Whether a request gets as far as the work it asks for.
abbrev pub is_served : Trust → Outcome → Ask → Client → Bool
is_served t o a p =
    p.has_proxy && (p.init_status && (runs o && (p.manager.ready && is_permitted t a)))

abbrev pub IsVain : Client → Client × Code → Type 0
IsVain p (q, code) = (q ≡ p) × (is_success code ≡ false)

-- What a post makes of a task that comes to nothing, or that does not run.
answered :
    (o : Outcome) (p : Client) (x : Client × Code)
    → (runs o ≡ true → IsVain p x)
    → IsVain p (if runs o then x.0 else p, result_of o x.1)
answered Outcome.in_time p x k = k refl
answered Outcome.no_place p x k = (refl, refl)
answered Outcome.no_loop p x k = (refl, refl)
answered Outcome.too_late p x k = ((k refl).0, refl)

if_IsVain :
    (p : Client) (c : Bool) (x y : Client × Code)
    → (c ≡ true → IsVain p x)
    → (c ≡ false → IsVain p y)
    → IsVain p (if c then x else y)
if_IsVain p true x y k l = k refl
if_IsVain p false x y k l = l refl

pub renamed_fails :
    (name code : Code)
    → is_success name ≡ false
    → is_success code ≡ false
    → is_success (renamed name code) ≡ false
renamed_fails name code n c = ground (arith, n, c)

run_on_service-IsVain :
    (o : Outcome) (call : Client → Client × Code) (p : Client)
    → ((p.init_status && (runs o && p.manager.ready)) ≡ true → IsVain p (call p))
    → IsVain p (run_on_service o call p)
unfolding run_on_service
run_on_service-IsVain o call p k =
    let x = if p.manager.ready then call p else (p, Code.uninit) in
    if_IsVain p (not p.init_status) (p, Code.uninit) (if runs o then x.0 else p, result_of o x.1)
      (λ e. (refl, refl))
      (λ e. answered o p x (λ f.
        if_IsVain p p.manager.ready (call p) (p, Code.uninit) (λ g. k (ground (arith, e, f, g)))
          (λ g. (refl, refl))))

module _ (env : Env) (sv : Services) (t : Trust) where
  ask_on_loop-IsVain :
      (a : Ask) (p : Client) → is_permitted t a ≡ false → IsVain p (ask_on_loop env sv t a p)
  unfolding ask_on_loop
  ask_on_loop-IsVain a p e =
      let (same, fails) = serve-IsRefused env sv t a p.manager e in
      (ap (λ m. record p { manager = m }) same, fails)

  -- A success of the service would be recorded; a failure only gets the proxy's name.
  recorded_IsVain :
      (a : Ask) (name : Code) (p : Client) (done : Client × Code)
      → is_success name ≡ false
      → is_permitted t a ≡ false
      → let (m, code) = serve env sv t a p.manager in
        IsVain p (if is_success code then done else (record p { manager = m }, renamed name code))
  recorded_IsVain a name p done n e =
      let (same, fails) = serve-IsRefused env sv t a p.manager e in
      let (m, code) = serve env sv t a p.manager in
      if_IsVain p (is_success code) done (record p { manager = m }, renamed name code) (λ f. cc)
        (λ f. (ap (λ m. record p { manager = m }) same, renamed_fails name code n fails))

  register_on_loop-IsVain :
      (k : ℕ) (p : Client)
      → is_permitted t (register (some k)) ≡ false
      → IsVain p (register_on_loop env sv t k p)
  unfolding register_on_loop
  register_on_loop-IsVain k p e =
      if_IsVain p p.register_status (p, Code.register_callback_fail) _ (λ f. (refl, refl))
        (λ f. recorded_IsVain (register (some k)) Code.register_callback_fail p _ refl e)

  un_register_on_loop-IsVain :
      (p : Client) → is_permitted t un_register ≡ false → IsVain p (un_register_on_loop env sv t p)
  unfolding un_register_on_loop
  un_register_on_loop-IsVain p e =
      if_IsVain p (not p.register_status) (p, Code.register_callback_fail) _ (λ f. (refl, refl))
        (λ f. recorded_IsVain un_register Code.unregister_callback_fail p _ refl e)

first_four :
    (s i u m : Bool) {k : Bool}
    → (s && (i && (u && (m && k)))) ≡ false
    → s ≡ true
    → (i && (u && m)) ≡ true
    → k ≡ false
first_four s i u m e f g = ground (arith, e, f, g)

not_permitted :
    (t : Trust) (o : Outcome) (p : Client) (a : Ask)
    → is_served t o a p ≡ false
    → p.has_proxy ≡ true
    → (p.init_status && (runs o && p.manager.ready)) ≡ true
    → is_permitted t a ≡ false
not_permitted t o p a e f g = first_four p.has_proxy p.init_status (runs o) p.manager.ready e f g

module _ (env : Env) (sv : Services) (t : Trust) (o : Outcome) (p : Client) where
  proxy_ask-IsVain :
      (a : Ask)
      → is_served t o a p ≡ false
      → p.has_proxy ≡ true
      → IsVain p (proxy_ask env sv t o a p)
  unfolding proxy_ask
  proxy_ask-IsVain (register none) e h =
      if_IsVain p p.init_status (p, Code.local_ptr_null) (p, Code.uninit) (λ f. (refl, refl))
        (λ f. (refl, refl))
  proxy_ask-IsVain (register (some k)) e h =
      run_on_service-IsVain o (register_on_loop env sv t k) p
        (λ g. register_on_loop-IsVain env sv t k p (not_permitted t o p (register (some k)) e h g))
  proxy_ask-IsVain un_register e h =
      run_on_service-IsVain o (un_register_on_loop env sv t) p
        (λ g. un_register_on_loop-IsVain env sv t p (not_permitted t o p un_register e h g))
  proxy_ask-IsVain (dial number x) e h =
      run_on_service-IsVain o (ask_on_loop env sv t (dial number x)) p (λ g.
        ask_on_loop-IsVain env sv t (dial number x) p (not_permitted t o p (dial number x) e h g))
  proxy_ask-IsVain (answer id v r) e h =
      run_on_service-IsVain o (ask_on_loop env sv t (answer id v r)) p (λ g.
        ask_on_loop-IsVain env sv t (answer id v r) p (not_permitted t o p (answer id v r) e h g))
  proxy_ask-IsVain (reject id b text) e h =
      run_on_service-IsVain o (ask_on_loop env sv t (reject id b text)) p (λ g.
        ask_on_loop-IsVain env sv t (reject id b text) p
          (not_permitted t o p (reject id b text) e h g))
  proxy_ask-IsVain (hang_up id) e h =
      run_on_service-IsVain o (ask_on_loop env sv t (hang_up id)) p
        (λ g. ask_on_loop-IsVain env sv t (hang_up id) p (not_permitted t o p (hang_up id) e h g))
  proxy_ask-IsVain (hold id) e h =
      run_on_service-IsVain o (ask_on_loop env sv t (hold id)) p
        (λ g. ask_on_loop-IsVain env sv t (hold id) p (not_permitted t o p (hold id) e h g))
  proxy_ask-IsVain (un_hold id) e h =
      run_on_service-IsVain o (ask_on_loop env sv t (un_hold id)) p
        (λ g. ask_on_loop-IsVain env sv t (un_hold id) p (not_permitted t o p (un_hold id) e h g))
  proxy_ask-IsVain (switch id) e h =
      run_on_service-IsVain o (ask_on_loop env sv t (switch id)) p
        (λ g. ask_on_loop-IsVain env sv t (switch id) p (not_permitted t o p (switch id) e h g))
  proxy_ask-IsVain end e h =
      run_on_service-IsVain o (ask_on_loop env sv t end) p
        (λ g. ask_on_loop-IsVain env sv t end p (not_permitted t o p end e h g))
  proxy_ask-IsVain answer_ringing e h =
      run_on_service-IsVain o (ask_on_loop env sv t answer_ringing) p (λ g.
        ask_on_loop-IsVain env sv t answer_ringing p (not_permitted t o p answer_ringing e h g))
  proxy_ask-IsVain reject_ringing e h =
      run_on_service-IsVain o (ask_on_loop env sv t reject_ringing) p (λ g.
        ask_on_loop-IsVain env sv t reject_ringing p (not_permitted t o p reject_ringing e h g))
  proxy_ask-IsVain hang_up_current e h =
      run_on_service-IsVain o (ask_on_loop env sv t hang_up_current) p (λ g.
        ask_on_loop-IsVain env sv t hang_up_current p (not_permitted t o p hang_up_current e h g))

-- A request of a client without a proxy, of one that was ended, through a post that does not run, to a service
-- that is not ready, or of a caller who may not make it, answers with an error and changes nothing: not the
-- client, not a call of the service.
pub client_ask-IsVain :
    (env : Env) (sv : Services) (t : Trust) (o : Outcome) (a : Ask) (p : Client)
    → is_served t o a p ≡ false
    → IsVain p (client_ask env sv t o a p)
unfolding client_ask
client_ask-IsVain env sv t o a p e =
    if_IsVain p p.has_proxy (proxy_ask env sv t o a p) (p, Code.uninit)
      (λ h. proxy_ask-IsVain env sv t o p a e h) (λ h. (refl, refl))
