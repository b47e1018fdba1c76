-- ===== src/EventLoop/Queue.antt =====
-- The ring of `LosEventHandler` when it drives itself: `ring_`, `ringHead_`, `ringCount_`.
use telephony_call_manager_m.Prelude.{
  ℕ, suc, ◌+◌, ◌-◌, ◌%◌, Bool, not, Option, none, some, List, if◌then◌else◌, leb, length, get_or,
  set, replicate,
}
use telephony_call_manager_m.Prelude.Eq.{◌==◌, nat_eq}
use telephony_call_manager_m.Types.{Code}

module _ {ℓ} where
  -- A message of the loop. A synchronous call is known by its waiter slot.
  pub data Message (A : Type ℓ) : Type ℓ where
    async_task : A → Message A
    sync_call : ℕ → A → Message A
    timer_fire : Message A

  pub record Ring (M : Type ℓ) : Type ℓ where
    pub slots : List (Option M)
    pub head : ℕ
    pub count : ℕ
    pub queue_size : ℕ

module _ {ℓ} {A : Type ℓ} where
  -- `ring_.assign(config_.queueSize + 1, nullptr)`.
  unfoldable pub new_ring : ℕ → Ring (Message A)
  new_ring queue_size = record {
    slots = replicate (suc queue_size) none;
    head = 0;
    count = 0;
    queue_size = queue_size;
  }

  -- The last slot is for the timer's message alone.
  abbrev pub limit_of : Message A → Ring (Message A) → ℕ
  limit_of Message.timer_fire r = length r.slots
  limit_of _ r = r.queue_size

  unfoldable pub enqueue : Bool → Message A → Ring (Message A) → Ring (Message A) × Code
  enqueue running m r =
      if not running
      then (r, Code.uninit)
      else if leb (limit_of m r) r.count
      then (r, Code.ipc_connect_stub_fail)
      else (
        record r {
          slots = set r.slots ((r.head + r.count) % length r.slots) (some m);
          count = suc r.count;
        },
        Code.success,
      )

  unfoldable pub pop : Ring (Message A) → Ring (Message A) × Option (Message A)
  pop r = if r.count == 0 then (r, none) else (
    record r {
      slots = set r.slots r.head none;
      head = (r.head + 1) % length r.slots;
      count = r.count - 1;
    },
    get_or r.slots r.head none,
  )
