-- ===== src/Client/Told.antt =====
-- The agreement of the client and the service on the callback, through the starts and ends of both.
use telephony_call_manager_m.Prelude.{
  ℕ, ◌≡◌, refl, Bool, true, false, Option, none, some, if◌then◌else◌, Bool-cases, Option-cases, inl,
  inr,
}
use telephony_call_manager_m.Prelude.Eq.{◌==◌, ==_refl, nat_eq}
use telephony_call_manager_m.Types.{Bytes, Code, is_success, bytes_eq}
use telephony_call_manager_m.Service.{Env}
use telephony_call_manager_m.Prelude.Int.{int_eq}
use telephony_call_manager_m.AbilityReport.{Registered, un_register_bundle, un_register_callback}
use telephony_call_manager_m.Manager.{Manager, guarded}
use telephony_call_manager_m.Manager.Trusted.{Trust}
use telephony_call_manager_m.Manager.Life.{init, un_init}
use telephony_call_manager_m.Client.{
  Outcome, Client, runs, client_init, client_un_init, give_up_callback, proxy_un_init,
  service_start, service_stop,
}

abbrev pub is_some : Option ℕ → Bool
is_some none = false
is_some (some k) = true

-- Whoever is told is the callback that the client holds, under the client's bundle.
abbrev pub Agrees : Bytes → Option ℕ → Option Registered → Type 0
Agrees b o none = Unit
Agrees b none (some r) = ⊥
Agrees b (some k) (some r) = (r.callback ≡ k) × (r.bundle ≡ b)

abbrev pub IsTold : Bytes → Client → Type 0
IsTold b p = (p.register_status ≡ is_some p.callback) × Agrees b p.callback p.manager.callback

-- A stop takes the callback away or leaves it.
un_register_bundle-Agrees :
    (b c : Bytes) (o : Option ℕ) (r : Option Registered)
    → Agrees b o r
    → Agrees b o (un_register_bundle c r).0
unfolding un_register_bundle
un_register_bundle-Agrees b c o none a = tt
un_register_bundle-Agrees b c o (some r) a = elim (Bool-cases (r.bundle == c)) [
  | inl e ↦ rw e tt
  | inr e ↦ rw e a
]

-- What both branches of a test keep.
pub if_IsTold :
    (b : Bytes) (c : Bool) (p q : Client) → IsTold b p → IsTold b q → IsTold b (if c then p else q)
if_IsTold b true p q k l = k
if_IsTold b false p q k l = l

pub client_init-IsTold : (b : Bytes) (p : Client) → IsTold b p → IsTold b (client_init p)
unfolding client_init
client_init-IsTold b p a = if_IsTold b p.is_init p _ a a

pub service_start-IsTold : (b : Bytes) (p : Client) → IsTold b p → IsTold b (service_start p)
unfolding service_start init
service_start-IsTold b p a = elim (Bool-cases p.manager.ready) [ inl e ↦ rw e a | inr e ↦ rw e a ]

pub service_stop-IsTold :
    (env : Env) (t : Trust) (b : Bytes) (p : Client) → IsTold b p → IsTold b (service_stop env t p)
unfolding service_stop un_init
service_stop-IsTold env t b p a = elim (Bool-cases p.manager.ready) [
  | inl e ↦ rw e (a.0, un_register_bundle-Agrees b t.bundle_name p.callback p.manager.callback a.1)
  | inr e ↦ rw e a
]

-- A callback that the client gives up is told nothing more.
give_up-Agrees :
    (b : Bytes) (k : ℕ) (r : Option Registered)
    → Agrees b (some k) r
    → Agrees b none (un_register_callback k r)
unfolding un_register_callback
give_up-Agrees b k none a = tt
give_up-Agrees b k (some r) a = rw (a.0) (rw (==_refl k) tt)

pub none_told :
    (b : Bytes) (o : Option ℕ) (r : Option Registered) → is_some o ≡ false → Agrees b o r → r ≡ none
none_told b o none e a = refl
none_told b none (some r) e a = elim a [ ]
none_told b (some k) (some r) e a = cc

pub told_bundle : (b : Bytes) (o : Option ℕ) (r : Registered) → Agrees b o (some r) → r.bundle ≡ b
told_bundle b none r a = elim a [ ]
told_bundle b (some k) r a = a.1

give_up_callback-IsTold : (b : Bytes) (p : Client) → IsTold b p → IsTold b (give_up_callback p)
unfolding give_up_callback
give_up_callback-IsTold b p a = elim (Option-cases p.callback) [
  | inl e ↦ rw e (refl, rw e at a.1)
  | inr (k, e) ↦ rw e (refl, give_up-Agrees b k p.manager.callback (rw e at a.1))
]

proxy_un_init-IsTold :
    (b : Bytes) (o : Outcome) (p : Client) → IsTold b p → IsTold b (proxy_un_init o p)
unfolding proxy_un_init
proxy_un_init-IsTold b o p a =
    let q : Client = record p { init_status = false } in
    if_IsTold b p.init_status _ p
      (if_IsTold b (runs o) (give_up_callback q) q (give_up_callback-IsTold b q a) a) a

pub client_un_init-IsTold :
    (b : Bytes) (o : Outcome) (p : Client) → IsTold b p → IsTold b (client_un_init o p)
unfolding client_un_init
client_un_init-IsTold b o p a =
    if_IsTold b p.is_init (record (proxy_un_init o p) { is_init = false }) p
      (proxy_un_init-IsTold b o p a) a

-- After a success the callback is gone, and else it agrees as before.
abbrev Gone : Bytes → Option ℕ → Manager × Code → Type 0
Gone b o (m, code) = (is_success code ≡ true → Agrees b none m.callback) × Agrees b o m.callback

pub guarded-Gone :
    (b : Bytes) (o : Option ℕ) (ok : Bool) (code : Code) (m : Manager) (next : Manager × Code)
    → is_success code ≡ false
    → Agrees b o m.callback
    → Gone b o next
    → Gone b o (guarded ok code m next)
guarded-Gone b o true code m next e a k = k
guarded-Gone b o false code m next e a k = (λ f. cc, a)

pub un_register_bundle-Gone :
    (b : Bytes) (o : Option ℕ) (m : Manager) (r : Option Registered)
    → Agrees b o r
    → let (x, code) = un_register_bundle b r in Gone b o (record m { callback = x }, code)
unfolding un_register_bundle
un_register_bundle-Gone b o m none a = (λ f. tt, tt)
un_register_bundle-Gone b o m (some r) a = rw (told_bundle b o r a, ==_refl b) (λ f. tt, tt)

-- The same of results with a code.
pub if_result_IsTold :
    (b : Bytes) (c : Bool) (x y : Client × Code)
    → (c ≡ true → IsTold b x.0)
    → (c ≡ false → IsTold b y.0)
    → IsTold b (if c then x else y).0
if_result_IsTold b true x y k l = k refl
if_result_IsTold b false x y k l = l refl
