-- ===== src/CallTable/Tests.antt =====
-- A table with one dialed call, and an emergency call for it.
use telephony_call_manager_m.Prelude.{
  ◌≤◌, ◌<◌, ◌≡◌, ◌≢◌, refl, true, false, none, some, [], ◌∷◌, arith, if◌then◌else◌, length,
}
use telephony_call_manager_m.Prelude.Eq.{◌==◌, nat_eq}
use telephony_call_manager_m.Prelude.Int.{pos, int_eq}
use telephony_call_manager_m.Types.{TelCallState, RunningState, Code, tel_eq}
use telephony_call_manager_m.Samples.{new_cs_call, call_in, at_start, table_of}
use telephony_call_manager_m.Call.{Call, new_call}
use telephony_call_manager_m.CallTable.{
  CallTable, empty_table, allocate, add_one_call_object, delete_one_call_object, id_of, is_ecc_at,
  limit_for,
}
use telephony_call_manager_m.CallTable.Queries.{get_one_call_object}
use telephony_call_manager_m.CallTable.Reserve.{Inv, Fresh}
use telephony_call_manager_m.CallTable.Steps.{Added, add_one_call_object-Added}
use telephony_call_manager_m.CallTable.Reach.{Reach, here, after, allocates, adds, Reach-Inv}
use telephony_call_manager_m.CallTable.Lookup.{get_one_call_object-add, get_one_call_object-delete}
use telephony_call_manager_m.CallTable.Limits.{ordinary_refused}

abbrev dialed : Call
dialed = call_in (pos 1) TelCallState.dialing RunningState.dialing

abbrev one_call : CallTable
one_call = table_of dialed

one_call-Reach : Reach at_start one_call
unfolding allocate empty_table
one_call-Reach = after (after here (allocates dialed)) (adds 0 (omega arith))

Reach-Inv_example : Inv one_call
Reach-Inv_example = Reach-Inv (new_cs_call (pos 0) false) one_call one_call-Reach

one_call-Inv : Inv one_call
one_call-Inv = Reach-Inv (new_cs_call (pos 0) false) one_call one_call-Reach

-- An emergency call beside it, not yet in the table.
abbrev with_sos : CallTable
with_sos = (allocate (new_cs_call (pos 2) true) one_call).0

with_sos-Reach : Reach at_start with_sos
with_sos-Reach = after one_call-Reach (allocates (new_cs_call (pos 2) true))

with_sos-Inv : Inv with_sos
with_sos-Inv = Reach-Inv (new_cs_call (pos 0) false) with_sos with_sos-Reach

add_one_call_object-Added_example : Added 1 with_sos (add_one_call_object (some 1) with_sos)
add_one_call_object-Added_example = add_one_call_object-Added 1 with_sos

sos-Fresh : Fresh (id_of with_sos) (id_of with_sos 1) with_sos.calls
unfolding allocate add_one_call_object empty_table new_call
sos-Fresh = (λ e. cc e, tt)

sos_room : length with_sos.calls < limit_for (is_ecc_at with_sos 1)
unfolding allocate add_one_call_object empty_table new_call limit_for
sos_room = omega arith

get_one_call_object-add_example :
    get_one_call_object (pos 2) (add_one_call_object (some 1) with_sos).0
    ≡ (if id_of with_sos 1 == pos 2 then some 1 else get_one_call_object (pos 2) with_sos)
get_one_call_object-add_example = get_one_call_object-add 1 with_sos (pos 2) sos-Fresh sos_room

get_one_call_object-delete_example :
    get_one_call_object (pos 1) (delete_one_call_object (pos 1) one_call).0
    ≡ (if pos 1 == pos 1 then none else get_one_call_object (pos 1) one_call)
get_one_call_object-delete_example =
    get_one_call_object-delete (pos 1) (pos 1) one_call one_call-Inv

-- Four ordinary calls and a fifth that is not in the table.
abbrev four_calls : CallTable
four_calls = record one_call {
  heap = λ p. new_cs_call (pos p) false;
  next = 5;
  calls = 0 ∷ 1 ∷ 2 ∷ 3 ∷ [];
}

fifth_is_plain : is_ecc_at four_calls 4 ≡ false
unfolding new_call
fifth_is_plain = refl

four : 4 ≤ length four_calls.calls
four = omega arith

ordinary_refused_example :
    ((add_one_call_object (some 4) four_calls).0 ≡ four_calls)
    × ((add_one_call_object (some 4) four_calls).1 ≢ Code.success)
ordinary_refused_example = ordinary_refused 4 four_calls fifth_is_plain four
