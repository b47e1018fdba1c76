-- ===== src/Conference/Members.antt =====
-- Joining, leaving, and the lists of members.
use telephony_call_manager_m.Prelude.{
  ℕ, ◌≡◌, ◌≢◌, refl, subst, ◌∙◌, inl, inr, true, false, not, ◌&&◌, List, [], ◌∷◌, ◌++◌, map,
  Bool-cases,
}
use telephony_call_manager_m.Prelude.Eq.{◌==◌, ==→≡, ==_refl}
use telephony_call_manager_m.Prelude.Int.{ℤ, int_eq}
use telephony_call_manager_m.Prelude.IdSet.{
  contains, Sorted, contains-insert, contains-erase, erase-insert,
}
use telephony_call_manager_m.Types.{Code}
use telephony_call_manager_m.Conference.{
  Conference, can_join, join_to_conference, leave_from_conference, reset_if_empty,
  get_sub_call_id_list, get_call_id_list_for_conference, is_empty,
}
use telephony_call_manager_m.Conference.Runs.{CsReach, CsReach-CsInv, HostOf}

reset-sub_ids : (f : Conference) → (reset_if_empty f).sub_ids ≡ f.sub_ids
unfolding reset_if_empty
reset-sub_ids f = elim (Bool-cases (is_empty f.sub_ids)) [ inl e ↦ rw e refl | inr e ↦ rw e refl ]

-- A call that joins a conference and leaves it again leaves the members as they were, if it was not one
-- of them; both requests succeed.
pub leave-join :
    (now : ℕ) (id : ℤ) (f : Conference)
    → can_join f.state ≡ true
    → contains id f.sub_ids ≡ false
    → let (g, joined) = join_to_conference now id f in
      let (h, left) = leave_from_conference id g in
      (joined ≡ Code.success) × (left ≡ Code.success) × (h.sub_ids ≡ f.sub_ids)
unfolding join_to_conference leave_from_conference
leave-join now id f joinable new =
    rw (joinable, contains-insert id id f.sub_ids, ==_refl id)
      (refl, refl, reset-sub_ids _ ∙ erase-insert id f.sub_ids new)

-- A departure takes the call, and no other, out of the members.
pub contains-leave :
    (id other : ℤ) (f : Conference)
    → Sorted f.sub_ids
    → contains other (leave_from_conference id f).0.sub_ids
      ≡ not (id == other) && contains other f.sub_ids
unfolding leave_from_conference
contains-leave id other f o = elim (Bool-cases (contains id f.sub_ids)) [
  | inl e ↦ rw (e, reset-sub_ids, contains-erase other id f.sub_ids o) refl
  | inr e ↦ rw e (elim (Bool-cases (id == other)) [
    | inl same ↦ rw same (subst (λ k. contains k f.sub_ids ≡ false) (==→≡ id other same) e)
    | inr ne ↦ rw ne refl
  ])
]

host-contains : (main : ℤ) (s : List ℤ) → HostOf main s → s ≢ [] → contains main s ≡ true
host-contains main [] host some_member = absurd (some_member refl)
host-contains main (x ∷ s) host some_member = host

-- In the CS conference with members the host is one of them, so the list of members names the host, and
-- the list with the host names it twice.
pub host_is_listed {ℓ} :
    {A : Type ℓ} (print : ℤ → A) (f : Conference)
    → CsReach f
    → f.sub_ids ≢ []
    → (contains f.main_call_id f.sub_ids ≡ true)
      × (get_sub_call_id_list print f.main_call_id f ≡ (map print f.sub_ids, Code.success))
      × (get_call_id_list_for_conference print f.main_call_id f
          ≡ (map print f.sub_ids ++ (print f.main_call_id ∷ []), Code.success))
unfolding get_sub_call_id_list get_call_id_list_for_conference
host_is_listed print f r some_member =
    let v = CsReach-CsInv f r in
    let e = host-contains f.main_call_id f.sub_ids v.host some_member in rw e (refl, refl, refl)
