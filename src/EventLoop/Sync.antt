-- ===== src/EventLoop/Sync.antt =====
-- utils/mini/src/los_event_handler.cpp: a synchronous post, on one of the waiter slots. The caller and the
-- loop meet over the slot's semaphore, and the caller may give up first. A step here is what one of
-- them does under the lock, or one operation on the semaphore; they interleave as they like.
pub mod Owner
pub mod Handover
use telephony_call_manager_m.Prelude.{ℕ, suc, ◌-◌, ◌≡◌, ◌⊎◌, Bool, true, false, ◌||◌, if◌then◌else◌}
use telephony_call_manager_m.Prelude.Eq.{◌==◌, nat_eq}
use telephony_call_manager_m.Types.{Code}

-- Where a caller stands in `PostSyncTask`: between `AcquireWaiter` and `Enqueue`, in `TelOsSemWait`, back
-- from it with the signal or without, and out of it with a result.
pub data Phase : Type 0 where
  posting waiting woken timed_out : Phase
  returned : Code → Phase

-- A `SyncContext`, with its caller's phase and whether its message is still to be completed.
pub record Context : Type 0 where
  pub done : Bool
  pub abandoned : Bool
  pub status : Code
  pub phase : Phase
  pub pending : Bool

pub record Slot : Type 0 where
  pub in_use : Bool  -- waiterInUse_[slot]
  pub signals : ℕ  -- the count of waiterSems_[slot]
  pub next : ℕ
  pub contexts : ℕ → Context

abbrev pub update : ℕ → Context → Slot → Slot
update i c s = record s { contexts = λ j. if j == i then c else s.contexts j }

abbrev pub has_timed_out : Phase → Bool
has_timed_out Phase.timed_out = true
has_timed_out _ = false

abbrev pub new_context : Context
new_context = record {
  done = false;
  abandoned = false;
  status = Code.success;
  phase = Phase.posting;
  pending = false;
}

unfoldable pub acquire : Slot → Slot
acquire s = record (update s.next new_context s) { in_use = true; next = suc s.next }

-- `Enqueue` of the message, taken or refused.
unfoldable pub enqueued : ℕ → Slot → Slot
enqueued i s = update i (record (s.contexts i) { phase = Phase.waiting; pending = true }) s

unfoldable pub not_enqueued : ℕ → Code → Slot → Slot
not_enqueued i code s =
    record (update i (record (s.contexts i) { phase = Phase.returned code }) s) { in_use = false }

unfoldable pub complete : ℕ → Code → Slot → Slot
complete i code s =
    let c = s.contexts i in
    let u = update i (record c { status = code; done = true; pending = false }) s in
    if c.abandoned then record u { in_use = false } else record u { signals = suc s.signals }

unfoldable pub wake : ℕ → Slot → Slot
wake i s = record (update i (record (s.contexts i) { phase = Phase.woken }) s) {
  signals = s.signals - 1;
}

unfoldable pub time_out : ℕ → Slot → Slot
time_out i s = update i (record (s.contexts i) { phase = Phase.timed_out }) s

-- What `PostSyncTask` does behind the wait. A wait with no time left takes the signal if there is one.
unfoldable pub finish : ℕ → Slot → Slot
finish i s =
    let c = s.contexts i in
    let late = has_timed_out c.phase in
    let back = record c { phase = Phase.returned c.status } in
    let given_up = record c {
      abandoned = true;
      phase = Phase.returned Code.ipc_connect_stub_fail;
    } in
    if late
    then if c.done
      then record (update i back s) { in_use = false; signals = s.signals - 1 }
      else update i given_up s
    else record (update i back s) { in_use = false }

pub data Step (s : Slot) : Slot → Type 0 where
  acquires : s.in_use ≡ false → Step s (acquire s)
  enqueues : (i : ℕ) → (s.contexts i).phase ≡ Phase.posting → Step s (enqueued i s)
  refuses :
      (i : ℕ) (code : Code) → (s.contexts i).phase ≡ Phase.posting → Step s (not_enqueued i code s)
  completes : (i : ℕ) (code : Code) → (s.contexts i).pending ≡ true → Step s (complete i code s)
  wakes : (i n : ℕ) → (s.contexts i).phase ≡ Phase.waiting → s.signals ≡ suc n → Step s (wake i s)
  times_out : (i : ℕ) → (s.contexts i).phase ≡ Phase.waiting → Step s (time_out i s)
  finishes :
      (i : ℕ)
      → ((s.contexts i).phase ≡ Phase.woken) ⊎ ((s.contexts i).phase ≡ Phase.timed_out)
      → Step s (finish i s)

pub data Reach (s : Slot) : Slot → Type 0 where
  here : Reach s s
  after : {t u : Slot} → Reach s t → Step t u → Reach s u

-- A slot that `Init` made: nobody has used it.
abbrev pub new_slot : Slot
new_slot = record {
  in_use = false;
  signals = 0;
  next = 0;
  contexts = λ _. record new_context { phase = Phase.returned Code.success };
}
