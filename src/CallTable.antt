-- ===== src/CallTable.antt =====
-- services/call/src/mini/call_object_manager.cpp: the table of call objects. An object lives at an
-- address of the heap, `sptr<CallBase>` is an optional address, and the table is a list of addresses.
-- The handlers that hold a pointer see what is done to the object through the table, and the other
-- way round.
pub mod Queries
pub mod Scans
pub mod Reserve
pub mod Steps
pub mod Reach
pub mod Runs
pub mod Lookup
pub mod Limits
pub mod Foreground
mod Tests
use telephony_call_manager_m.Prelude.{
  ℕ, suc, ◌+◌, ◌-◌, ◌≡◌, Bool, true, false, ◌||◌, Option, none, some, List, [], ◌∷◌, ◌++◌,
  if◌then◌else◌, leb, length,
}
use telephony_call_manager_m.Prelude.Eq.{◌==◌, nat_eq}
use telephony_call_manager_m.Prelude.Int.{ℤ, pos, int_eq}
use telephony_call_manager_m.Prelude.Search.{any_if, erase_first, remove_if}
use telephony_call_manager_m.Types.{TelCallState, Code, tel_eq}
use telephony_call_manager_m.Call.{Clock, Call, set_tel_call_state}

-- The static members of `CallObjectManager`, with the heap.
pub record CallTable : Type 0 where
  pub heap : ℕ → Call
  pub next : ℕ
  pub calls : List ℕ  -- callObjectPtrList_
  pub last_id : ℕ  -- callId_
  pub is_first_dial_call_added : Bool
  pub need_wait_hold : Bool

-- `CALL_START_ID` is 0. What the heap holds at addresses that are not in use is never read.
unfoldable pub empty_table : Call → CallTable
empty_table c = record {
  heap = λ _. c;
  next = 0;
  calls = [];
  last_id = 0;
  is_first_dial_call_added = false;
  need_wait_hold = false;
}

-- `MINI_MAX_CALL_OBJECTS` and `MINI_ECC_RESERVED_CALL_OBJECTS`.
abbrev pub max_call_objects : ℕ
max_call_objects = 5

abbrev pub ecc_reserved_call_objects : ℕ
ecc_reserved_call_objects = 1

-- `new (std::nothrow)`: the object at a new address.
unfoldable pub allocate : Call → CallTable → CallTable × ℕ
allocate c t =
    (record t { heap = λ p. if p == t.next then c else t.heap p; next = suc t.next }, t.next)

-- An assignment through a pointer.
unfoldable pub modify : ℕ → (Call → Call) → CallTable → CallTable
modify p f t = record t { heap = λ q. if q == p then f (t.heap q) else t.heap q }

-- Overflow of `int32_t` past 2147483647 calls is not modelled.
unfoldable pub get_new_call_id : CallTable → CallTable × ℤ
get_new_call_id t = (record t { last_id = suc t.last_id }, pos (suc t.last_id))

abbrev pub id_of : CallTable → ℕ → ℤ
id_of t p = (t.heap p).call_id

abbrev pub is_ecc_at : CallTable → ℕ → Bool
is_ecc_at t p = (t.heap p).is_ecc

unfoldable pub limit_for : Bool → ℕ
limit_for is_ecc = if is_ecc then max_call_objects else max_call_objects - ecc_reserved_call_objects

-- The flag for a first call that is being dialed; nobody waits on the condition variable.
first_dial_added : List ℕ → CallTable → Bool
first_dial_added (p ∷ []) t =
    (t.heap p).call_state == TelCallState.dialing || t.is_first_dial_call_added
first_dial_added _ t = t.is_first_dial_call_added

pub append_call : ℕ → CallTable → CallTable
unfolding first_dial_added
append_call p t = record t {
  calls = t.calls ++ (p ∷ []);
  is_first_dial_call_added = first_dial_added (t.calls ++ (p ∷ [])) t;
}

add_call : ℕ → CallTable → CallTable × Code
unfolding append_call limit_for any_if
add_call p t =
    if any_if (λ q. id_of t q == id_of t p) t.calls
    then (t, Code.phone_call_already_exists)
    else if leb (limit_for (is_ecc_at t p)) (length t.calls)
    then (t, Code.call_counts_exceed_limit)
    else (append_call p t, Code.success)

unfoldable pub add_one_call_object : Option ℕ → CallTable → CallTable × Code
unfolding add_call
add_one_call_object none t = (t, Code.local_ptr_null)
add_one_call_object (some p) t = add_call p t

-- `DeleteOneCallObject(int32_t)`.
unfoldable pub delete_one_call_object : ℤ → CallTable → CallTable × Code
delete_one_call_object id t =
    (record t { calls = erase_first (λ p. id_of t p == id) t.calls }, Code.success)

-- `DeleteOneCallObject(sptr<CallBase> &)`.
unfoldable pub delete_call_object_ptr : Option ℕ → CallTable → CallTable
delete_call_object_ptr none t = t
delete_call_object_ptr (some p) t = record t { calls = remove_if (λ q. q == p) t.calls }

-- `UpdateOneCallObjectByCallId` sets the state of every call with the id.
set_state_by_id : Clock → ℤ → TelCallState → List ℕ → CallTable → CallTable
set_state_by_id now id next [] t = t
set_state_by_id now id next (p ∷ ps) t =
    set_state_by_id now id next ps
      (if id_of t p == id then modify p (λ c. (set_tel_call_state now next c).0) t else t)

unfoldable pub update_one_call_object_by_call_id : Clock → ℤ → TelCallState → CallTable → CallTable
unfolding set_state_by_id
update_one_call_object_by_call_id now id next t = set_state_by_id now id next t.calls t
