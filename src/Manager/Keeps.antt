-- ===== src/Manager/Keeps.antt =====
-- The requests that are not about the callback leave it.
use telephony_call_manager_m.Prelude.{
  ◌≡◌, refl, Bool, true, false, not, ◌||◌, leb, length, List, [], Bool-cases, inl, inr,
}
use telephony_call_manager_m.Prelude.Eq.{◌==◌, nat_eq}
use telephony_call_manager_m.Types.{Code, bytes_eq}
use telephony_call_manager_m.Policy.{Services}
use telephony_call_manager_m.Service.{World, Env}
use telephony_call_manager_m.Requests.Control.{
  invalid_call_id, answer_call, reject_call, hang_up_call, hold_call, un_hold_call, switch_call,
}
use telephony_call_manager_m.Requests.Entry.{dial_call}
use telephony_call_manager_m.Prelude.Int.{pos, int_eq}
use telephony_call_manager_m.Manager.{
  Manager, dial_asked, build_dial_info, guarded, any_of, with_control, dial_call_entry,
  answer_call_entry, reject_call_entry, hang_up_call_entry, hold_call_entry, un_hold_call_entry,
  switch_call_entry, end_call_entry, answer_ringing_entry, reject_ringing_entry,
  hang_up_current_entry,
}
use telephony_call_manager_m.Manager.Names.{Permission}
use telephony_call_manager_m.Manager.Trusted.{Trust, check_permission}
use telephony_call_manager_m.Manager.Asks.{
  Ask, register, un_register, dial, answer, reject, hang_up, hold, un_hold, switch, end,
  answer_ringing, reject_ringing, hang_up_current, serve, needs_one_of,
}

pub record KeepsCallback (m : Manager) (next : Manager × Code) : Type 0 where
  pub kept : next.0.callback ≡ m.callback

guarded-KeepsCallback :
    (ok : Bool) (code : Code) (m : Manager) (next : Manager × Code)
    → KeepsCallback m next
    → KeepsCallback m (guarded ok code m next)
guarded-KeepsCallback true code m next k = k
guarded-KeepsCallback false code m next k = record { kept = refl }

with_control-KeepsCallback :
    (f : World → World × Code) (m : Manager) → KeepsCallback m (with_control f m)
unfolding with_control
with_control-KeepsCallback f m = elim (Bool-cases m.control) [
  | inl e ↦ record { kept = rw e refl }
  | inr e ↦ record { kept = rw e refl }
]

-- The same behind the two checks of most entries.
system_KeepsCallback :
    (t : Trust) (ps : List Permission) (m : Manager) (next : Manager × Code)
    → KeepsCallback m next
    → KeepsCallback m (
        guarded t.is_system_app Code.illegal_use_of_system_api m
          (guarded (any_of t ps) Code.permission_err m next))
system_KeepsCallback t ps m next k =
    guarded-KeepsCallback t.is_system_app _ m _ (guarded-KeepsCallback (any_of t ps) _ m next k)

abbrev pub is_about_callback : Ask → Bool
is_about_callback (register k) = true
is_about_callback un_register = true
is_about_callback _ = false

pub serve-KeepsCallback :
    (env : Env) (sv : Services) (t : Trust) (a : Ask) (m : Manager)
    → is_about_callback a ≡ false
    → KeepsCallback m (serve env sv t a m)
unfolding serve dial_call_entry answer_call_entry reject_call_entry hang_up_call_entry
    hold_call_entry un_hold_call_entry switch_call_entry end_call_entry answer_ringing_entry
    reject_ringing_entry hang_up_current_entry
serve-KeepsCallback env sv t (register k) m e = cc
serve-KeepsCallback env sv t un_register m e = cc
serve-KeepsCallback env sv t (dial number x) m e =
    guarded-KeepsCallback (leb (length number) 255) Code.number_out_of_range m _ (
      system_KeepsCallback t (needs_one_of (dial number x)) m _ (
        with_control-KeepsCallback
          (dial_call env sv (dial_asked number (build_dial_info x t.bundle_name))) m))
serve-KeepsCallback env sv t (answer id v r) m e =
    system_KeepsCallback t (needs_one_of (answer id v r)) m _ (
      guarded-KeepsCallback (v == pos 0) Code.video_not_supported m _ (
        guarded-KeepsCallback (not r) Code.function_not_supported m _
          (with_control-KeepsCallback (answer_call env id v r) m)))
serve-KeepsCallback env sv t (reject id b text) m e =
    system_KeepsCallback t (needs_one_of (reject id b text)) m _ (
      guarded-KeepsCallback (not b || check_permission t Permission.send_messages)
        Code.permission_err m _
        (guarded-KeepsCallback (not b) Code.function_not_supported m _
          (with_control-KeepsCallback (reject_call env id b text) m)))
serve-KeepsCallback env sv t (hang_up id) m e =
    system_KeepsCallback t (needs_one_of (hang_up id)) m _
      (with_control-KeepsCallback (hang_up_call env id) m)
serve-KeepsCallback env sv t (hold id) m e =
    system_KeepsCallback t (needs_one_of (hold id)) m _
      (with_control-KeepsCallback (hold_call env id) m)
serve-KeepsCallback env sv t (un_hold id) m e =
    system_KeepsCallback t (needs_one_of (un_hold id)) m _
      (with_control-KeepsCallback (un_hold_call env id) m)
serve-KeepsCallback env sv t (switch id) m e =
    system_KeepsCallback t (needs_one_of (switch id)) m _
      (with_control-KeepsCallback (switch_call env id) m)
serve-KeepsCallback env sv t end m e = guarded-KeepsCallback t.is_system_app Code.fail m _ (
    guarded-KeepsCallback (any_of t (needs_one_of end)) Code.fail m _
      (guarded-KeepsCallback m.control Code.fail m _ (record { kept = refl })))
serve-KeepsCallback env sv t answer_ringing m e =
    guarded-KeepsCallback (any_of t (needs_one_of answer_ringing)) Code.permission_err m _
      (with_control-KeepsCallback (answer_call env invalid_call_id (pos 0) false) m)
serve-KeepsCallback env sv t reject_ringing m e =
    guarded-KeepsCallback (any_of t (needs_one_of reject_ringing)) Code.permission_err m _
      (with_control-KeepsCallback (reject_call env invalid_call_id false []) m)
serve-KeepsCallback env sv t hang_up_current m e =
    guarded-KeepsCallback (any_of t (needs_one_of hang_up_current)) Code.permission_err m _
      (with_control-KeepsCallback (hang_up_call env invalid_call_id) m)
