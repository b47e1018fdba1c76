-- ===== src/Manager/Asks.antt =====
-- The requests of an application, and who may make them.
use telephony_call_manager_m.Prelude.{
  ℕ, ◌≡◌, refl, Bool, true, false, not, ◌&&◌, ◌||◌, List, [], ◌∷◌, Option, leb, length,
}
use telephony_call_manager_m.Prelude.Int.{ℤ, int_eq}
use telephony_call_manager_m.Types.{Code, is_success}
use telephony_call_manager_m.PacMap.{PacMap}
use telephony_call_manager_m.Policy.{Services}
use telephony_call_manager_m.Service.{Env}
use telephony_call_manager_m.Manager.Names.{Permission}
use telephony_call_manager_m.Manager.Trusted.{Trust}
use telephony_call_manager_m.Manager.{
  Manager, any_of, guarded, register_callback_entry, un_register_callback_entry, dial_call_entry,
  answer_call_entry, reject_call_entry, hang_up_call_entry, hold_call_entry, un_hold_call_entry,
  switch_call_entry, end_call_entry, answer_ringing_entry, reject_ringing_entry,
  hang_up_current_entry,
}

pub data Ask : Type 0 where
  register : Option ℕ → Ask
  un_register : Ask
  dial : List ℕ → PacMap → Ask
  answer : ℤ → ℤ → Bool → Ask
  reject : ℤ → Bool → List ℕ → Ask
  hang_up hold un_hold switch : ℤ → Ask
  end answer_ringing reject_ringing hang_up_current : Ask

unfoldable pub serve : Env → Services → Trust → Ask → Manager → Manager × Code
serve env sv t (register k) m = register_callback_entry env sv t k m
serve env sv t un_register m = un_register_callback_entry env sv t m
serve env sv t (dial number x) m = dial_call_entry env sv t number x m
serve env sv t (answer id v r) m = answer_call_entry env sv t id v r m
serve env sv t (reject id b text) m = reject_call_entry env sv t id b text m
serve env sv t (hang_up id) m = hang_up_call_entry env sv t id m
serve env sv t (hold id) m = hold_call_entry env sv t id m
serve env sv t (un_hold id) m = un_hold_call_entry env sv t id m
serve env sv t (switch id) m = switch_call_entry env sv t id m
serve env sv t end m = end_call_entry env sv t m
serve env sv t answer_ringing m = answer_ringing_entry env sv t m
serve env sv t reject_ringing m = reject_ringing_entry env sv t m
serve env sv t hang_up_current m = hang_up_current_entry env sv t m

-- The table of what a request needs: whether only a system application may make it, and the permissions of
-- which one is enough.
abbrev pub needs_system : Ask → Bool
needs_system (register k) = false
needs_system answer_ringing = false
needs_system reject_ringing = false
needs_system hang_up_current = false
needs_system _ = true

abbrev pub needs_one_of : Ask → List Permission
needs_one_of (register k) =
    Permission.set_telephony_state ∷ Permission.get_telephony_state
    ∷ Permission.get_call_transfer_info ∷ []
needs_one_of un_register = Permission.set_telephony_state ∷ []
needs_one_of (dial number x) = Permission.place_call ∷ []
needs_one_of (answer id v r) = Permission.answer_call ∷ []
needs_one_of (reject id b text) = Permission.answer_call ∷ Permission.set_telephony_state ∷ []
needs_one_of (hang_up id) = Permission.answer_call ∷ Permission.set_telephony_state ∷ []
needs_one_of (hold id) = Permission.answer_call ∷ []
needs_one_of (un_hold id) = Permission.answer_call ∷ []
needs_one_of (switch id) = Permission.answer_call ∷ []
needs_one_of end = Permission.answer_call ∷ Permission.set_telephony_state ∷ []
needs_one_of answer_ringing = Permission.answer_call ∷ Permission.manage_call_for_devices ∷ []
needs_one_of reject_ringing =
    Permission.answer_call ∷ Permission.set_telephony_state ∷ Permission.manage_call_for_devices
    ∷ []
needs_one_of hang_up_current =
    Permission.answer_call ∷ Permission.set_telephony_state ∷ Permission.manage_call_for_devices
    ∷ []

abbrev pub is_permitted : Trust → Ask → Bool
is_permitted t a = (not (needs_system a) || t.is_system_app) && any_of t (needs_one_of a)

abbrev pub IsRefused : Manager → Manager × Code → Type 0
IsRefused m (u, code) = (u ≡ m) × (is_success code ≡ false)

-- Two checks in a row, one of which fails.
two_checks :
    (a b : Bool) (k l : Code) (m : Manager) (next : Manager × Code)
    → is_success k ≡ false
    → is_success l ≡ false
    → (a && b) ≡ false
    → IsRefused m (guarded a k m (guarded b l m next))
two_checks true true k l m next ek el e = cc
two_checks true false k l m next ek el e = (refl, el)
two_checks false b k l m next ek el e = (refl, ek)

-- The same behind a check of the request itself.
behind_check :
    (c : Bool) (k : Code) (m : Manager) (next : Manager × Code)
    → is_success k ≡ false
    → IsRefused m next
    → IsRefused m (guarded c k m next)
behind_check true k m next ek r = r
behind_check false k m next ek r = (refl, ek)

-- A request of a caller who may not make it, or that has not the permission for it, is refused with an
-- error, and nothing changes: not a call, not the callback, not what was sent.
pub serve-IsRefused :
    (env : Env) (sv : Services) (t : Trust) (a : Ask) (m : Manager)
    → is_permitted t a ≡ false
    → IsRefused m (serve env sv t a m)
unfolding serve register_callback_entry un_register_callback_entry dial_call_entry answer_call_entry
    reject_call_entry hang_up_call_entry hold_call_entry un_hold_call_entry switch_call_entry
    end_call_entry answer_ringing_entry reject_ringing_entry hang_up_current_entry
serve-IsRefused env sv t (register k) m e =
    two_checks true _ Code.permission_err Code.permission_err m _ refl refl e
serve-IsRefused env sv t un_register m e = two_checks t.is_system_app _ _ _ m _ refl refl e
serve-IsRefused env sv t (dial number x) m e =
    behind_check (leb (length number) 255) _ m _ refl
      (two_checks t.is_system_app _ _ _ m _ refl refl e)
serve-IsRefused env sv t (answer id v r) m e = two_checks t.is_system_app _ _ _ m _ refl refl e
serve-IsRefused env sv t (reject id b text) m e = two_checks t.is_system_app _ _ _ m _ refl refl e
serve-IsRefused env sv t (hang_up id) m e = two_checks t.is_system_app _ _ _ m _ refl refl e
serve-IsRefused env sv t (hold id) m e = two_checks t.is_system_app _ _ _ m _ refl refl e
serve-IsRefused env sv t (un_hold id) m e = two_checks t.is_system_app _ _ _ m _ refl refl e
serve-IsRefused env sv t (switch id) m e = two_checks t.is_system_app _ _ _ m _ refl refl e
serve-IsRefused env sv t end m e = two_checks t.is_system_app _ _ _ m _ refl refl e
serve-IsRefused env sv t answer_ringing m e =
    two_checks true _ Code.permission_err Code.permission_err m _ refl refl e
serve-IsRefused env sv t reject_ringing m e =
    two_checks true _ Code.permission_err Code.permission_err m _ refl refl e
serve-IsRefused env sv t hang_up_current m e =
    two_checks true _ Code.permission_err Code.permission_err m _ refl refl e
