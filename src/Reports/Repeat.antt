-- ===== src/Reports/Repeat.antt =====
-- A report that says what was stored.
use telephony_call_manager_m.Prelude.{◌≡◌, refl, true, false, List, [], ◌∷◌, some}
use telephony_call_manager_m.Prelude.Eq.{◌==◌, ==_refl}
use telephony_call_manager_m.Prelude.Int.{ℤ, int_eq}
use telephony_call_manager_m.Prelude.Search.{All, find_if}
use telephony_call_manager_m.Types.{TelCallState, Code, tel_eq, call_type_eq, video_eq}
use telephony_call_manager_m.Number.{is_valid_slot_id}
use telephony_call_manager_m.Status.{CallDetailInfo}
use telephony_call_manager_m.Service.{World, Env}
use telephony_call_manager_m.Reports.Diff.{
  same_index, is_changed, needs_handling, is_reported, handle_reported, handle_missing,
  update_call_details_info, handle_calls_report_info, at_slot,
}

-- The call does not alert, and is the first of the list with its index.
abbrev pub IsSteady : List CallDetailInfo → CallDetailInfo → Type 0
IsSteady report d =
    ((d.state == TelCallState.alerting) ≡ false) × (find_if (same_index d.index) report ≡ some d)

is_changed_self :
    (d : CallDetailInfo) → (d.state == TelCallState.alerting) ≡ false → is_changed d d ≡ false
unfolding is_changed
is_changed_self d h =
    rw (h, ==_refl d.state, ==_refl d.mpty, ==_refl d.call_mode, ==_refl d.call_type) refl

handle_reported-steady :
    (env : Env) (report ds : List CallDetailInfo) (w : World)
    → All (IsSteady report) ds
    → handle_reported env report ds w ≡ w
unfolding handle_reported needs_handling
handle_reported-steady env report [] w a = refl
handle_reported-steady env report (d ∷ ds) w a =
    rw (a.0.1, needs_handling, is_changed_self d a.0.0) (handle_reported-steady env report ds w a.1)

handle_missing-steady :
    (env : Env) (report ds : List CallDetailInfo) (w : World)
    → All (IsSteady report) ds
    → handle_missing env report ds w ≡ w
unfolding handle_missing is_reported
handle_missing-steady env report [] w a = refl
handle_missing-steady env report (d ∷ ds) w a =
    rw (a.0.1, is_reported) (handle_missing-steady env report ds w a.1)

-- A report of a valid slot that lists the very calls that are stored, none of them alerting and no two
-- with one index, succeeds and handles no call: the table, the conferences, the flags of the dial and
-- what was sent and noticed stay as they are.
pub handle_calls_report_info_repeats :
    (env : Env) (slot : ℤ) (report : List CallDetailInfo) (w : World)
    → is_valid_slot_id slot ≡ true
    → w.stored slot ≡ report
    → All (IsSteady report) report
    → let (u, code) = handle_calls_report_info env slot report w in
      (code ≡ Code.success)
      × ((u.table ≡ w.table)
          × ((u.log ≡ w.log)
              × ((u.helper ≡ w.helper)
                  × ((u.cs_conference ≡ w.cs_conference) × (u.ims_conference ≡ w.ims_conference)))))
unfolding handle_calls_report_info update_call_details_info
handle_calls_report_info_repeats env slot report w valid same a =
    rw
      (
        valid,
        same,
        handle_reported-steady env report report
            (record w { latest = at_slot slot report w.latest }) a,
        handle_missing-steady env report report (record w { latest = at_slot slot report w.latest })
            a,
      )
      (refl, (refl, (refl, (refl, (refl, refl)))))
