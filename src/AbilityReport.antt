-- ===== src/AbilityReport.antt =====
-- services/call_report/src/mini/call_ability_report_proxy.cpp: the one callback that an application registers,
-- and what is posted to it. A callback is known by a number; its bundle is what `SetBundleInfo` left.
use telephony_call_manager_m.Prelude.{ℕ, ◌||◌, List, [], ◌∷◌, Option, none, some, if◌then◌else◌}
use telephony_call_manager_m.Prelude.Eq.{◌==◌, nat_eq}
use telephony_call_manager_m.Prelude.Int.{ℤ}
use telephony_call_manager_m.Types.{TelCallState, Bytes, Code, is_success, bytes_eq}
use telephony_call_manager_m.Call.{Call}

pub record Registered : Type 0 where
  pub callback : ℕ
  pub bundle : Bytes

-- What the application is told; of `CallAttributeInfo`, the id, the number and the state.
pub data Told : Type 0 where
  details : ℤ → Bytes → TelCallState → Told
  disconnected_cause : ℤ → Told
  event : ℕ → Bytes → Told

-- `RegisterCallBack`, of a null pointer or a callback.
unfoldable pub register_callback : Option ℕ → Bytes → Option Registered → Option Registered × Code
register_callback none bundle o = (o, Code.local_ptr_null)
register_callback (some k) bundle (some r) = (some r, Code.register_callback_fail)
register_callback (some k) bundle none =
    (some (record { callback = k; bundle = bundle }), Code.success)

-- `UnRegisterCallBack` by the bundle: another one's callback stays, and the result says nothing of it.
unfoldable pub un_register_bundle : Bytes → Option Registered → Option Registered × Code
un_register_bundle bundle none = (none, Code.local_ptr_null)
un_register_bundle bundle (some r) = (if r.bundle == bundle then none else some r, Code.success)

-- `UnRegisterCallBack` of one callback.
unfoldable pub un_register_callback : ℕ → Option Registered → Option Registered
un_register_callback k none = none
un_register_callback k (some r) = if r.callback == k then none else some r

-- The number up to the first `,` or `;`. It fits the array, so the bound of the loop is its length.
unfoldable pub before_post_dial : Bytes → Bytes
before_post_dial [] = []
before_post_dial (c ∷ s) =
    let rest = before_post_dial s in if c == b',' || c == b';' then [] else c ∷ rest

-- A report is posted to the main loop, which answers with a code; with it, what is on its way to which
-- callback.
unfoldable pub report : Code → Told → Option Registered → List (ℕ × Told) × Code
report posted x none = ([], Code.fail)
report posted x (some r) = (if is_success posted then (r.callback, x) ∷ [] else [], posted)

-- `ReportCallStateInfo` to a bundle.
unfoldable pub report_to_bundle : Code → Told → Bytes → Option Registered → List (ℕ × Told) × Code
unfolding report
report_to_bundle posted x bundle none = ([], Code.telephony_error)
report_to_bundle posted x bundle (some r) =
    if r.bundle == bundle then report posted x (some r) else ([], Code.telephony_error)

-- A call that is answered is reported so, though its own state does not say it.
unfoldable pub call_state_updated : Code → Call → TelCallState → Option Registered → List (ℕ × Told)
unfolding report before_post_dial
call_state_updated posted c TelCallState.answered o =
    (report posted (details c.call_id (before_post_dial c.account_number) TelCallState.answered)
      o).0
call_state_updated posted c _ o =
    (report posted (details c.call_id (before_post_dial c.account_number) c.call_state) o).0
