-- ===== src/Manager/Queries.antt =====
-- The queries of call_manager_service.cpp, with what call_control_manager.cpp answers.
use telephony_call_manager_m.Prelude.{ℕ, Bool, false, not, List, [], ◌∷◌, ◌++◌, if◌then◌else◌}
use telephony_call_manager_m.Prelude.Int.{ℤ}
use telephony_call_manager_m.Types.{Code}
use telephony_call_manager_m.CallTable.Queries.{is_voip}
use telephony_call_manager_m.CallTable.{CallTable}
use telephony_call_manager_m.CallTable.Scans.{
  has_cellular_call_exist, has_ringing_call, is_new_call_allowed_create,
}
use telephony_call_manager_m.AbilityReport.{Told, details, report_to_bundle}
use telephony_call_manager_m.Manager.{Manager, any_of}
use telephony_call_manager_m.Manager.Names.{Permission}
use telephony_call_manager_m.Manager.Trusted.{Trust}

-- A value, or the code of what went wrong.
pub data Reply {ℓ} (A : Type ℓ) : Type ℓ where
  said : A → Reply A
  failed : Code → Reply A

pub data CallStateToApp : Type 0 where
  idle ringing offhook : CallStateToApp

-- `CallControlManager::GetCallState`.
unfoldable pub call_state_to_app : CallTable → CallStateToApp
call_state_to_app t =
    if not (has_cellular_call_exist t)
    then CallStateToApp.idle
    else if has_ringing_call t
    then CallStateToApp.ringing
    else CallStateToApp.offhook

-- What the control manager says of the table, if it is there.
unfoldable pub if_controlled : {A : Type 0} → (CallTable → A) → Manager → Reply A
if_controlled f m = if m.control then said (f m.world.table) else failed Code.local_ptr_null

unfoldable pub get_call_state_entry : Manager → Reply CallStateToApp
get_call_state_entry m = if_controlled call_state_to_app m

-- With or without VoIP calls, which the mini build has not.
unfoldable pub has_call_entry : Bool → Manager → Bool
has_call_entry with_voip m = if m.control then has_cellular_call_exist m.world.table else false

module _ (t : Trust) where
  -- `main` is the main call of the IMS conference.
  unfoldable pub is_new_call_allowed_entry : ℤ → Manager → Reply Bool
  is_new_call_allowed_entry main m =
      if t.is_system_app
      then if_controlled (is_new_call_allowed_create main) m
      else failed Code.illegal_use_of_system_api

  unfoldable pub is_ringing_entry : Manager → Reply Bool
  is_ringing_entry m =
      if not t.is_system_app
      then failed Code.illegal_use_of_system_api
      else if any_of t (Permission.set_telephony_state ∷ [])
      then if_controlled has_ringing_call m
      else failed Code.permission_err

  -- Each call, of which the number is at most 255 bytes long, is reported to the caller's bundle; with the code, what is on its way. `posted` is what the
  -- main loop answers to the posts.
  unfoldable pub tell_all : Code → List ℕ → Manager → List (ℕ × Told)
  tell_all posted [] m = []
  tell_all posted (p ∷ ps) m =
      let c = m.world.table.heap p in
      let rest = tell_all posted ps m in
      if is_voip c
      then rest
      else (report_to_bundle posted (details c.call_id c.account_number c.call_state) t.bundle_name
          m.callback).0
        ++ rest

  unfoldable pub observe_entry : Code → Manager → List (ℕ × Told) × Code
  observe_entry posted m =
      if not t.is_system_app
      then ([], Code.illegal_use_of_system_api)
      else if any_of t (Permission.set_telephony_state ∷ Permission.get_telephony_state ∷ [])
      then (tell_all posted m.world.table.calls m, Code.success)
      else ([], Code.permission_err)
