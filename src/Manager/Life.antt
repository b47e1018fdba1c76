-- ===== src/Manager/Life.antt =====
-- The life of the service: `Init` and `UnInit` of call_manager_service.cpp, with what they call of
-- call_control_manager.cpp and report_call_info_handler.cpp. Memory does not run out; the audio manager's own
-- part is in Audio.antt, and what the connection tells the cellular stack is outside.
use telephony_call_manager_m.Prelude.{
  ℕ, ◌≡◌, refl, Bool, true, false, ◌||◌, List, [], ◌∷◌, some, if◌then◌else◌, Bool-cases, inl, inr,
  arith,
}
use telephony_call_manager_m.Prelude.Eq.{◌==◌, nat_eq}
use telephony_call_manager_m.Prelude.Search.{All, remove_if}
use telephony_call_manager_m.Types.{Bytes, Code}
use telephony_call_manager_m.CallTable.{CallTable, delete_call_object_ptr}
use telephony_call_manager_m.Service.{World, Env}
use telephony_call_manager_m.Service.Pending.{remove_pending_hangup_protect_task}
use telephony_call_manager_m.AbilityReport.{un_register_bundle}
use telephony_call_manager_m.Manager.{Manager}

-- `CallControlManager::Init`.
unfoldable pub init_control : World → World
init_control w = if w.listening then w else record w { listening = true }

-- `ReportCallInfoHandler::Init` with `CallStatusManager::Init`.
unfoldable pub init_reports : World → World
init_reports w =
    if w.reporting then w else record w { reporting = true; stored = λ _. []; latest = λ _. [] }

unfoldable pub init : Manager → Manager × Code
unfolding init_control init_reports
init m = if m.ready then (m, Code.success) else (
  record m { ready = true; control = true; world = init_reports (init_control m.world) },
  Code.success,
)

-- `ReportCallInfoHandler::UnInit`.
unfoldable pub un_init_reports : World → World
un_init_reports w = record w { reporting = false }

unfoldable pub delete_each : List ℕ → CallTable → CallTable
unfolding delete_call_object_ptr
delete_each [] t = t
delete_each (p ∷ ps) t = delete_each ps (delete_call_object_ptr (some p) t)

unfoldable pub delete_all : World → World
unfolding delete_each
delete_all w = record w { table = delete_each w.table.calls w.table }

module _ (env : Env) where
  -- `CallControlManager::UnInit`.
  unfoldable pub un_init_control : World → World
  unfolding remove_pending_hangup_protect_task
  un_init_control w =
      let (h, l) =
        remove_pending_hangup_protect_task env.freq env.tick env.ms_to_ticks w.helper w.loop in
      record w { helper = h; loop = l; listening = false }

  unfoldable pub un_init : Bytes → Manager → Manager
  unfolding un_init_control un_init_reports delete_all un_register_bundle
  un_init bundle m =
      let w1 = un_init_reports m.world in
      let w2 = if m.control then un_init_control w1 else w1 in
      if m.ready
      then record m {
        ready = false;
        control = false;
        callback = (un_register_bundle bundle m.callback).0;
        world = delete_all w2;
      }
      else m

abbrev is_in : ℕ → List ℕ → Bool
is_in q [] = false
is_in q (p ∷ ps) = q == p || is_in q ps

abbrev AreIn : List ℕ → List ℕ → Type 0
AreIn ps xs = All (λ q. is_in q ps ≡ true) xs

AreIn-remove_if :
    (p : ℕ) (ps xs : List ℕ) → AreIn (p ∷ ps) xs → AreIn ps (remove_if (λ q. q == p) xs)
unfolding remove_if
AreIn-remove_if p ps [] a = tt
AreIn-remove_if p ps (x ∷ xs) a = elim (Bool-cases (x == p)) [
  | inl e ↦ rw e (AreIn-remove_if p ps xs a.1)
  | inr e ↦ rw e (rw e at a.0, AreIn-remove_if p ps xs a.1)
]

AreIn-more : (p : ℕ) (ps xs : List ℕ) → AreIn ps xs → AreIn (p ∷ ps) xs
AreIn-more p ps [] a = tt
AreIn-more p ps (x ∷ xs) a = (ground (arith, a.0), AreIn-more p ps xs a.1)

AreIn-self : (xs : List ℕ) → AreIn xs xs
AreIn-self [] = tt
AreIn-self (x ∷ xs) = (ground arith, AreIn-more x xs xs (AreIn-self xs))

none_in : (xs : List ℕ) → AreIn [] xs → xs ≡ []
none_in [] a = refl
none_in (x ∷ xs) a = cc

delete_each-empties :
    (ps : List ℕ) (t : CallTable) → AreIn ps t.calls → (delete_each ps t).calls ≡ []
unfolding delete_each delete_call_object_ptr
delete_each-empties [] t a = none_in t.calls a
delete_each-empties (p ∷ ps) t a =
    delete_each-empties ps (delete_call_object_ptr (some p) t) (AreIn-remove_if p ps t.calls a)

-- When the service that was ready stops, no call is left in the table, whatever was in it; nothing listens
-- to the calls or takes a report any more, the control manager is gone, and a second stop does nothing.
pub un_init_lem :
    (env : Env) (bundle : Bytes) (m : Manager)
    → m.ready ≡ true
    → m.control ≡ true
    → let u = un_init env bundle m in
      (u.world.table.calls ≡ [])
      × ((u.world.listening ≡ false)
          × ((u.world.reporting ≡ false) × ((u.control ≡ false) × (un_init env bundle u ≡ u))))
unfolding un_init delete_all un_init_control un_init_reports
un_init_lem env bundle m ready control =
    rw (ready, control)
      (
        delete_each-empties m.world.table.calls m.world.table (AreIn-self m.world.table.calls),
        (refl, (refl, (refl, refl))),
      )
