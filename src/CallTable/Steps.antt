-- ===== src/CallTable/Steps.antt =====
-- Every operation keeps the invariant, in any order; the slot that is kept for emergency calls.
use telephony_call_manager_m.Prelude.{
  ℕ, ◌≤◌, ◌<◌, ◌≡◌, refl, true, not, Option, none, some, List, [], ◌∷◌, arith, Bool-cases, inl, inr,
  length, length-append, leb, ◌⊎◌, leb→le,
}
use telephony_call_manager_m.Prelude.Eq.{◌==◌, nat_eq}
use telephony_call_manager_m.Prelude.Int.{ℤ, int_eq}
use telephony_call_manager_m.Prelude.Search.{
  All-append, All-erase_first, All-remove_if, any_if, count_if, count_if-append,
  length-erase_first-le, length-remove_if-le, count_if-erase_first-le, count_if-remove_if-le,
  count_if-le-length,
}
use telephony_call_manager_m.Types.{Code}
use telephony_call_manager_m.Call.{Call}
use telephony_call_manager_m.CallTable.{
  CallTable, empty_table, id_of, is_ecc_at, limit_for, add_one_call_object, append_call,
  delete_one_call_object, delete_call_object_ptr,
}
use telephony_call_manager_m.CallTable.Reserve.{
  Inv, Fresh, any_if-Fresh, Fresh-any_if, Distinct-append, Distinct-erase_first, Distinct-remove_if,
}

pub empty_table-Inv : (c : Call) → Inv (empty_table c)
unfolding empty_table count_if
empty_table-Inv c = record {
  distinct = tt;
  bounded = omega arith;
  reserved = omega arith;
  allocated = tt;
}

append_call-Inv :
    (p : ℕ) (t : CallTable)
    → Inv t
    → p < t.next
    → Fresh (id_of t) (id_of t p) t.calls
    → length t.calls < limit_for (is_ecc_at t p)
    → Inv (append_call p t)
unfolding append_call limit_for count_if
append_call-Inv p t v lt fresh room = record {
  distinct = Distinct-append (id_of t) t.calls p v.distinct fresh;
  bounded = ground (arith, length-append t.calls (p ∷ []), v);
  reserved = ground (
    arith,
    count_if-append (λ q. not (is_ecc_at t q)) t.calls (p ∷ []),
    count_if-le-length (λ q. not (is_ecc_at t q)) t.calls,
    v,
  );
  allocated = All-append _ t.calls (p ∷ []) v.allocated (lt, tt);
}

-- What admission does, on all its branches.
abbrev pub Added : ℕ → CallTable → CallTable × Code → Type 0
Added p t r =
    (¬ Fresh (id_of t) (id_of t p) t.calls × (r ≡ (t, Code.phone_call_already_exists)))
    ⊎ (Fresh (id_of t) (id_of t p) t.calls
        × (limit_for (is_ecc_at t p) ≤ length t.calls)
        × (r ≡ (t, Code.call_counts_exceed_limit)))
    ⊎ (Fresh (id_of t) (id_of t p) t.calls
        × (length t.calls < limit_for (is_ecc_at t p))
        × (r ≡ (append_call p t, Code.success)))

true-not_Fresh :
    (id_at : ℕ → ℤ) (id : ℤ) (ps : List ℕ)
    → any_if (λ q. id_at q == id) ps ≡ true
    → ¬ Fresh id_at id ps
true-not_Fresh id_at id ps e f = cc (Fresh-any_if id_at id ps f)

-- `AddOneCallObject` refuses an id that the table has, refuses a call when the table is at the limit
-- for its kind, and otherwise appends it; a refusal leaves the table as it was.
pub add_one_call_object-Added : (p : ℕ) (t : CallTable) → Added p t (add_one_call_object (some p) t)
unfolding add_one_call_object
add_one_call_object-Added p t = elim (Bool-cases (any_if (λ q. id_of t q == id_of t p) t.calls)) [
  | inl e ↦ rw e (inl (true-not_Fresh _ _ t.calls e, refl))
  | inr e ↦
      let fresh = any_if-Fresh (id_of t) (id_of t p) t.calls e in
      elim (Bool-cases (leb (limit_for (is_ecc_at t p)) (length t.calls))) [
        | inl f ↦ rw (e, f) (inr (inl (fresh, leb→le _ _ f, refl)))
        | inr f ↦ rw (e, f) (inr (inr (fresh, ground arith, refl)))
      ]
]

pub add-Inv :
    (p : ℕ) (t : CallTable) (r : CallTable × Code) → Added p t r → p < t.next → Inv t → Inv r.0
add-Inv p t r (inl (_, e)) lt v = rw e v
add-Inv p t r (inr (inl (_, _, e))) lt v = rw e v
add-Inv p t r (inr (inr (fresh, room, e))) lt v = rw e (append_call-Inv p t v lt fresh room)

pub delete-Inv : (id : ℤ) (t : CallTable) → Inv t → Inv (delete_one_call_object id t).0
unfolding delete_one_call_object
delete-Inv id t v = record {
  distinct = Distinct-erase_first (id_of t) _ t.calls v.distinct;
  bounded = omega (arith, length-erase_first-le {0} (λ p. id_of t p == id) t.calls, v.bounded);
  reserved = omega (
    arith,
    count_if-erase_first-le {0} (λ p. not (is_ecc_at t p)) (λ p. id_of t p == id) t.calls,
    v.reserved,
  );
  allocated = All-erase_first _ _ t.calls v.allocated;
}

pub delete_ptr-Inv : (o : Option ℕ) (t : CallTable) → Inv t → Inv (delete_call_object_ptr o t)
unfolding delete_call_object_ptr
delete_ptr-Inv none t v = v
delete_ptr-Inv (some p) t v = record {
  distinct = Distinct-remove_if (id_of t) _ t.calls v.distinct;
  bounded = omega (arith, length-remove_if-le {0} (λ q. q == p) t.calls, v.bounded);
  reserved = omega (
    arith,
    count_if-remove_if-le {0} (λ q. not (is_ecc_at t q)) (λ q. q == p) t.calls,
    v.reserved,
  );
  allocated = All-remove_if _ _ t.calls v.allocated;
}
