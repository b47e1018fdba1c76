-- ===== src/Reports/Diff.antt =====
-- `HandleCallsReportInfo`: the network reports all calls of a slot at once, and the difference to the list
-- that was stored decides which calls are handled.
use telephony_call_manager_m.Prelude.{
  Bool, true, false, not, ◌||◌, List, [], ◌∷◌, none, some, if◌then◌else◌,
}
use telephony_call_manager_m.Prelude.Eq.{◌==◌}
use telephony_call_manager_m.Prelude.Int.{ℤ, int_eq}
use telephony_call_manager_m.Prelude.Search.{find_if, remove_if}
use telephony_call_manager_m.Types.{TelCallState, Code, tel_eq, call_type_eq, video_eq}
use telephony_call_manager_m.Number.{is_valid_slot_id}
use telephony_call_manager_m.Status.{CallDetailInfo}
use telephony_call_manager_m.Service.{World, Env}
use telephony_call_manager_m.Reports.Handle.{handle_call_report_info}

abbrev pub same_index : ℤ → CallDetailInfo → Bool
same_index i d = i == d.index

-- Something that matters is new; a call that alerts is always handled again.
unfoldable pub is_changed : CallDetailInfo → CallDetailInfo → Bool
is_changed new old =
    not (new.state == old.state)
    || (not (new.mpty == old.mpty)
        || (new.state == TelCallState.alerting
            || (not (new.call_mode == old.call_mode) || not (new.call_type == old.call_type))))

-- Whether a reported call is handled, against the first stored one with its index.
unfoldable pub needs_handling : List CallDetailInfo → CallDetailInfo → Bool
unfolding find_if is_changed
needs_handling stored d = elim (find_if (same_index d.index) stored) [
  | none ↦ true
  | some old ↦ is_changed d old
]

-- Whether the report names the index.
unfoldable pub is_reported : List CallDetailInfo → ℤ → Bool
unfolding find_if
is_reported report i = elim (find_if (same_index i) report) [ none ↦ false | some _ ↦ true ]

abbrev pub gone : CallDetailInfo → CallDetailInfo
gone d = record d { state = TelCallState.disconnected }

-- The first loop: the reported calls. A handler never writes the two lists.
unfoldable pub handle_reported : Env → List CallDetailInfo → List CallDetailInfo → World → World
unfolding needs_handling
handle_reported env stored [] w = w
handle_reported env stored (d ∷ ds) w =
    handle_reported env stored ds
      (if needs_handling stored d then (handle_call_report_info env d w).0 else w)

-- The second loop: the stored calls that the report does not name any more.
unfoldable pub handle_missing : Env → List CallDetailInfo → List CallDetailInfo → World → World
unfolding is_reported
handle_missing env report [] w = w
handle_missing env report (d ∷ ds) w =
    handle_missing env report ds
      (if is_reported report d.index then w else (handle_call_report_info env (gone d) w).0)

abbrev pub at_slot {ℓ} : {A : Type ℓ} → ℤ → A → (ℤ → A) → ℤ → A
at_slot slot a f i = if i == slot then a else f i

abbrev pub is_disconnected : CallDetailInfo → Bool
is_disconnected d = d.state == TelCallState.disconnected

-- `UpdateCallDetailsInfo`.
unfoldable pub update_call_details_info : ℤ → List CallDetailInfo → World → World
unfolding remove_if
update_call_details_info slot report w =
    let kept = remove_if is_disconnected report in
    record w {
      stored = at_slot slot kept w.stored;
      latest = elim kept [ [] ↦ at_slot slot [] w.latest | _ ∷ _ ↦ w.latest ];
    }

unfoldable pub handle_calls_report_info : Env → ℤ → List CallDetailInfo → World → World × Code
unfolding handle_reported handle_missing update_call_details_info
handle_calls_report_info env slot report w =
    let stored = w.stored slot in
    let w1 =
      handle_reported env stored report (record w { latest = at_slot slot report w.latest }) in
    let w2 = handle_missing env report stored w1 in
    if is_valid_slot_id slot
    then (update_call_details_info slot report w2, Code.success)
    else (w, Code.invalid_slot_id)
