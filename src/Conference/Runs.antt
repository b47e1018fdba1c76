-- ===== src/Conference/Runs.antt =====
-- The two conferences over a whole run, as the reports of the network drive them.
use telephony_call_manager_m.Prelude.{
  ℕ, ◌≡◌, refl, ◌⊎◌, inl, inr, true, false, List, [], ◌∷◌, arith, Bool-cases, if◌then◌else◌,
}
use telephony_call_manager_m.Prelude.Eq.{◌==◌, ==_refl}
use telephony_call_manager_m.Prelude.Int.{ℤ, int_eq, ltb_ℤ}
use telephony_call_manager_m.Prelude.IdSet.{
  contains, insert, Sorted, Sorted-insert, Sorted-erase, contains-insert, contains-erase,
}
use telephony_call_manager_m.Types.{Code}
use telephony_call_manager_m.Call.{Call}
use telephony_call_manager_m.Conference.{
  Conference, ConferenceState, state_beq, err_id, new_conference, set_main_call,
  set_conference_state, join_to_conference, leave_from_conference, hold_conference, reset_if_empty,
  update_conference_id, cs_launch_conference, ims_launch_conference, call_exit_conference,
  call_hold_conference, handle_combine_conference_fail_event, first_or, is_empty,
}

-- `LaunchConference` of a CS call always fails: the conference is idle afterwards, with its members as
-- they were, and the call is unchanged.
pub cs_launch_conference_lem :
    (now : ℕ) (c : Call) (f : Conference)
    → cs_launch_conference now c f
      ≡ (set_conference_state ConferenceState.idle f, c, Code.illegal_call_operation)
unfolding cs_launch_conference join_to_conference set_conference_state
cs_launch_conference_lem now c f = refl

-- What a report does to the CS conference (`ActiveHandle`, `HoldingHandle`, `DisconnectedHandle`,
-- `RefreshCall`, `EVENT_COMBINE_CALL_FAILED`).
pub data CsStep (f : Conference) : Conference → Type 0 where
  launches : (now : ℕ) (c : Call) → CsStep f (cs_launch_conference now c f).0
  exits : (c : Call) → CsStep f (call_exit_conference c f).0
  holds : (c : Call) → CsStep f (call_hold_conference c f).0
  fails_to_combine : CsStep f (handle_combine_conference_fail_event f)
  updates : (id : ℤ) → CsStep f (update_conference_id id f)

pub data CsReach : Conference → Type 0 where
  start : CsReach new_conference
  after : {f g : Conference} → CsReach f → CsStep f g → CsReach g

-- The host of a conference with members is one of them, and a conference without members has none.
abbrev pub HostOf : ℤ → List ℤ → Type 0
HostOf id [] = id ≡ err_id
HostOf id (x ∷ s) = contains id (x ∷ s) ≡ true

abbrev pub IsRest : ConferenceState → Type 0
IsRest s = (s ≡ ConferenceState.idle) ⊎ (s ≡ ConferenceState.holding)

pub record CsInv (f : Conference) : Type 0 where
  pub sorted : Sorted f.sub_ids
  pub host : HostOf f.main_call_id f.sub_ids
  pub rest : IsRest f.state
  pub old_rest : IsRest f.old_state

HostOf-member : (id : ℤ) (s : List ℤ) → contains id s ≡ true → HostOf id s
unfolding contains
HostOf-member id [] h = absurd (ground (arith, h))
HostOf-member id (x ∷ s) h = h

member-HostOf : (id x : ℤ) (s : List ℤ) → contains x s ≡ true → HostOf id s → contains id s ≡ true
unfolding contains
member-HostOf id x [] h host = absurd (ground (arith, h))
member-HostOf id x (y ∷ s) h host = host

contains_first : (x : ℤ) (s : List ℤ) → contains x (x ∷ s) ≡ true
unfolding contains
contains_first x s = rw (==_refl x) refl

-- The members after a departure, with the host that is left to them.
reset-CsInv :
    (f : Conference) (rest : List ℤ) (main : ℤ)
    → CsInv f
    → Sorted rest
    → (main ≡ first_or f.main_call_id rest) ⊎ (contains main rest ≡ true)
    → CsInv (reset_if_empty (record f { sub_ids = rest; main_call_id = main }))
unfolding reset_if_empty
reset-CsInv f [] main v o h = record {
  sorted = tt;
  host = refl;
  rest = inl refl;
  old_rest = inl refl;
}
reset-CsInv f (x ∷ rest) main v o (inl e) = record {
  sorted = o;
  host = rw e (contains_first x rest);
  rest = v.rest;
  old_rest = v.old_rest;
}
reset-CsInv f (x ∷ rest) main v o (inr h) = record {
  sorted = o;
  host = h;
  rest = v.rest;
  old_rest = v.old_rest;
}

leave-CsInv : (id : ℤ) (f : Conference) → CsInv f → CsInv (leave_from_conference id f).0
unfolding leave_from_conference
leave-CsInv id f v = elim (Bool-cases (contains id f.sub_ids)) [
  | inr e ↦ rw e v
  | inl e ↦ rw e (elim (Bool-cases (f.main_call_id == id)) [
    | inl m ↦ rw m (reset-CsInv f _ _ v (Sorted-erase id f.sub_ids v.sorted) (inl refl))
    | inr m ↦ rw m (
        reset-CsInv f _ _ v (Sorted-erase id f.sub_ids v.sorted) (
          inr (
            rw (contains-erase f.main_call_id id f.sub_ids v.sorted, other id f.main_call_id m)
              (member-HostOf f.main_call_id id f.sub_ids e v.host))))
  ])
]
  where
    other : (x y : ℤ) → (y == x) ≡ false → (x == y) ≡ false
    other x y m = ground (arith, m)

member_not_empty : (x : ℤ) (s : List ℤ) → contains x s ≡ true → is_empty s ≡ false
unfolding contains
member_not_empty x [] h = absurd (ground (arith, h))
member_not_empty x (y ∷ s) h = refl

hold-CsInv : (id : ℤ) (f : Conference) → CsInv f → CsInv (hold_conference id f).0
unfolding hold_conference
hold-CsInv id f v = elim (Bool-cases (state_beq f.state ConferenceState.holding)) [
  | inl h ↦ rw h v
  | inr h ↦ elim (Bool-cases (contains id f.sub_ids)) [
    | inr e ↦ rw (h, e) v
    | inl e ↦
        rw (h, e, member_not_empty id f.sub_ids e)
          (record { sorted = v.sorted; host = v.host; rest = inr refl; old_rest = inr refl })
  ]
]

first-HostOf : (s : List ℤ) → HostOf (first_or err_id s) s
first-HostOf [] = refl
first-HostOf (x ∷ s) = contains_first x s

fail-CsInv : (f : Conference) → CsInv f → CsInv (handle_combine_conference_fail_event f)
unfolding handle_combine_conference_fail_event set_main_call set_conference_state
fail-CsInv f v = elim (Bool-cases (ltb_ℤ (first_or err_id f.sub_ids) err_id)) [
  | inl e ↦
      rw e (record { sorted = v.sorted; host = v.host; rest = v.old_rest; old_rest = v.old_rest })
  | inr e ↦ rw e (record {
    sorted = v.sorted;
    host = first-HostOf f.sub_ids;
    rest = v.old_rest;
    old_rest = v.old_rest;
  })
]

-- The host after `UpdateConferenceId`, in a set that now has the id.
updated-HostOf :
    (id main : ℤ) (s s' : List ℤ)
    → HostOf main s
    → contains id s' ≡ true
    → (contains main s ≡ true → contains main s' ≡ true)
    → HostOf (if main == err_id then id else main) s'
updated-HostOf id main s s' host new more = elim (Bool-cases (main == err_id)) [
  | inl e ↦ rw e (HostOf-member id s' new)
  | inr e ↦ rw e (HostOf-member main s' (more (go s host e)))
]
  where
    go : (s : List ℤ) → HostOf main s → (main == err_id) ≡ false → contains main s ≡ true
    go [] h e = absurd (ground (arith, h, e))
    go (x ∷ s) h e = h

update-CsInv : (id : ℤ) (f : Conference) → CsInv f → CsInv (update_conference_id id f)
unfolding update_conference_id
update-CsInv id f v = elim (Bool-cases (contains id f.sub_ids)) [
  | inl e ↦ rw e (record {
    sorted = v.sorted;
    host = updated-HostOf id f.main_call_id f.sub_ids f.sub_ids v.host e (λ h. h);
    rest = v.rest;
    old_rest = v.old_rest;
  })
  | inr e ↦ rw e (record {
    sorted = Sorted-insert id f.sub_ids v.sorted;
    host =
        updated-HostOf id f.main_call_id f.sub_ids (insert id f.sub_ids) v.host
          (rw (contains-insert id id f.sub_ids, ==_refl id) refl)
          (λ h. rw (contains-insert f.main_call_id id f.sub_ids, h) (ground arith));
    rest = v.rest;
    old_rest = v.old_rest;
  })
]

CsStep-CsInv : {f g : Conference} → CsStep f g → CsInv f → CsInv g
unfolding call_exit_conference call_hold_conference set_conference_state
CsStep-CsInv {f} (launches now c) v =
    rw (cs_launch_conference_lem now c f)
      (record { sorted = v.sorted; host = v.host; rest = inl refl; old_rest = v.old_rest })
CsStep-CsInv {f} (exits c) v = leave-CsInv c.call_id f v
CsStep-CsInv {f} (holds c) v = hold-CsInv c.call_id f v
CsStep-CsInv {f} fails_to_combine v = fail-CsInv f v
CsStep-CsInv {f} (updates id) v = update-CsInv id f v

-- Whatever the reports do to the CS conference: its members are in increasing order, its host is one of
-- them or it has neither, and it is idle or holding, never active.
pub CsReach-CsInv : (f : Conference) → CsReach f → CsInv f
unfolding new_conference
CsReach-CsInv f start = record { sorted = tt; host = refl; rest = inl refl; old_rest = inl refl }
CsReach-CsInv f (after r s) = CsStep-CsInv s (CsReach-CsInv _ r)

-- What a report does to the IMS conference.
pub data ImsStep (f : Conference) : Conference → Type 0 where
  launches : (now : ℕ) (c : Call) → ImsStep f (ims_launch_conference now c f).0
  exits : (c : Call) → ImsStep f (call_exit_conference c f).0
  holds : (c : Call) → ImsStep f (call_hold_conference c f).0
  fails_to_combine : ImsStep f (handle_combine_conference_fail_event f)

pub data ImsReach : Conference → Type 0 where
  start : ImsReach new_conference
  after : {f g : Conference} → ImsReach f → ImsStep f g → ImsReach g

ImsStep-stays : {f g : Conference} → ImsStep f g → f ≡ new_conference → g ≡ new_conference
unfolding ims_launch_conference call_exit_conference call_hold_conference new_conference
    handle_combine_conference_fail_event set_main_call set_conference_state
ImsStep-stays (launches now c) e = rw e refl
ImsStep-stays (exits c) e = rw e refl
ImsStep-stays (holds c) e = rw e refl
ImsStep-stays fails_to_combine e = rw e refl

ImsReach-stays : {f : Conference} → ImsReach f → f ≡ new_conference
ImsReach-stays start = refl
ImsReach-stays (after r s) = ImsStep-stays s (ImsReach-stays r)

-- The IMS conference never leaves its initial state, so every launch, exit and hold of an IMS call is
-- refused and leaves the call as it was.
pub ims_conference_refuses :
    (f : Conference) (now : ℕ) (c : Call)
    → ImsReach f
    → (f ≡ new_conference)
      × (ims_launch_conference now c f ≡ (f, c, Code.illegal_call_operation))
      × (call_exit_conference c f ≡ (f, c, Code.conference_seperate_failed))
      × (call_hold_conference c f ≡ (f, c, Code.conference_seperate_failed))
unfolding ims_launch_conference call_exit_conference call_hold_conference new_conference
ims_conference_refuses f now c r = let e = ImsReach-stays r in rw e (refl, refl, refl, refl)
