-- ===== src/EventLoop.antt =====
-- utils/mini/src/los_event_handler.cpp: the main loop's bounded ring of messages and its table of
-- delayed tasks. The clock, the tick frequency and the delay in ticks (`TelOsMsToTicks`) are arguments;
-- a task is a value that is handed back when the loop would run it.
pub mod Queue
pub mod Fifo
pub mod Tick
pub mod Order
pub mod Due
pub mod Sync
mod Tests
use telephony_call_manager_m.Prelude.{
  ℕ, suc, ◌+◌, ◌-◌, ◌*◌, ◌/◌, ◌%◌, Bool, true, false, not, ◌&&◌, ◌||◌, Option, none, some, List, [],
  ◌∷◌, ◌++◌, if◌then◌else◌, leb, length,
}
use telephony_call_manager_m.Prelude.Eq.{◌==◌, nat_eq}
use telephony_call_manager_m.Types.{Code, is_success}
use telephony_call_manager_m.EventLoop.Queue.{Ring, Message, enqueue}

-- Ticks, ids and counts are `uint32_t`.
abbrev pub two_32 : ℕ
two_32 = 4294967296

abbrev pub two_31 : ℕ
two_31 = 2147483648

-- `static_cast<int32_t>(dueTick - now) <= 0`, on two ticks below 2 ^ 32: the difference wraps, and is
-- not positive when it is 0 or has the sign bit.
unfoldable pub is_due : ℕ → ℕ → Bool
is_due due_tick now = let d = (due_tick + (two_32 - now)) % two_32 in d == 0 || leb two_31 d

-- `++lastTaskId_`, once more if it wrapped to the invalid id.
unfoldable pub next_task_id : ℕ → ℕ
next_task_id last = let id = (last + 1) % two_32 in if id == 0 then 1 else id

-- `TEL_OS_WAIT_FOREVER` is 2 ^ 32 - 1.
abbrev pub wait_forever : ℕ
wait_forever = 4294967295

-- The product is computed in 64 bits, where it fits.
unfoldable pub ticks_to_ms : ℕ → ℕ → ℕ
ticks_to_ms freq ticks =
    let ms = (ticks * 1000 + (freq - 1)) / freq in
    if freq == 0 then ticks else if leb wait_forever ms then wait_forever - 1 else ms

module _ {ℓ} where
  pub record DelayedTask (A : Type ℓ) : Type ℓ where
    pub id : ℕ
    pub due_tick : ℕ
    pub task : A

  -- The members of `LosEventHandler` that the posts and the timer use. `timer` is the delay in
  -- milliseconds that the timer was last started with, if it was not stopped since.
  pub record Loop (A : Type ℓ) : Type ℓ where
    pub running : Bool  -- state_ == STATE_RUNNING
    pub ring : Ring (Message A)
    pub max_delayed_tasks : ℕ
    pub delayed : List (DelayedTask A)
    pub last_task_id : ℕ
    pub timer : Option ℕ
    pub timer_message_queued : Bool

module _ {ℓ} {A : Type ℓ} where
  -- The first loop of the insertion passes what is due before the entry, the second what is due at
  -- the same tick.
  unfoldable pub insert_among_equal : DelayedTask A → List (DelayedTask A) → List (DelayedTask A)
  insert_among_equal e [] = e ∷ []
  insert_among_equal e (x ∷ xs) =
      let rest = insert_among_equal e xs in
      if x.due_tick == e.due_tick then x ∷ rest else e ∷ x ∷ xs

  unfoldable pub insert_delayed : DelayedTask A → List (DelayedTask A) → List (DelayedTask A)
  unfolding is_due insert_among_equal
  insert_delayed e [] = e ∷ []
  insert_delayed e (x ∷ xs) =
      let rest = insert_delayed e xs in
      if not (is_due e.due_tick x.due_tick) then x ∷ rest else insert_among_equal e (x ∷ xs)

  unfoldable pub arm_timer : ℕ → ℕ → Loop A → Loop A
  unfolding is_due ticks_to_ms
  arm_timer freq now l = elim l.delayed [
    | [] ↦ record l { timer = none }
    | x ∷ xs ↦ record l {
      timer = some (
          ticks_to_ms freq
            (if is_due x.due_tick now then 1 else (x.due_tick + (two_32 - now)) % two_32));
    }
  ]

  abbrev starts_with : ℕ → List (DelayedTask A) → Bool
  starts_with id [] = false
  starts_with id (x ∷ xs) = x.id == id

  -- `pos == delayed_.begin()` after the two loops.
  unfoldable pub is_earliest : DelayedTask A → List (DelayedTask A) → Bool
  unfolding is_due
  is_earliest e [] = true
  is_earliest e (x ∷ xs) = is_due e.due_tick x.due_tick && not (x.due_tick == e.due_tick)

  abbrev pub entry_of : ℕ → ℕ → A → Loop A → DelayedTask A
  entry_of now ticks task l = record {
    id = next_task_id l.last_task_id;
    due_tick = (now + (if ticks == 0 then 1 else ticks)) % two_32;
    task = task;
  }

  -- The delayed branch of `PostAsyncTask`; the timer is armed again if the entry comes first.
  unfoldable pub post_delayed : ℕ → ℕ → ℕ → A → Loop A → Loop A × Option ℕ × Code
  unfolding insert_delayed next_task_id is_earliest arm_timer
  post_delayed freq now ticks task l =
      let e = entry_of now ticks task l in
      let l' = record l { last_task_id = e.id; delayed = insert_delayed e l.delayed } in
      if leb l.max_delayed_tasks (length l.delayed)
      then (l, none, Code.ipc_connect_stub_fail)
      else (if is_earliest e l.delayed then arm_timer freq now l' else l', some e.id, Code.success)

  -- `PostAsyncTask`: the new loop, the id that is written to `taskId`, and the result. Memory does
  -- not run out here.
  unfoldable pub post_async_task : ℕ → ℕ → ℕ → ℕ → A → Loop A → Loop A × Option ℕ × Code
  unfolding enqueue post_delayed
  post_async_task freq now delay_ms ticks task l =
      let (r, code) = enqueue l.running (Message.async_task task) l.ring in
      if not l.running
      then (l, none, Code.uninit)
      else if delay_ms == 0
      then (record l { ring = r }, none, code)
      else post_delayed freq now ticks task l

  without : ℕ → List (DelayedTask A) → List (DelayedTask A)
  without id [] = []
  without id (x ∷ xs) = let rest = without id xs in if x.id == id then xs else x ∷ rest

  has_id : ℕ → List (DelayedTask A) → Bool
  has_id id [] = false
  has_id id (x ∷ xs) = if x.id == id then true else has_id id xs

  unfoldable pub remove_async_task : ℕ → ℕ → ℕ → Loop A → Loop A × Bool
  unfolding without has_id arm_timer
  remove_async_task freq now id l =
      let l' = record l { delayed = without id l.delayed } in
      if id == 0 || not l.running
      then (l, false)
      else if not (has_id id l.delayed)
      then (l, false)
      else (if starts_with id l.delayed then arm_timer freq now l' else l', true)

  -- `RunDueTasks` takes tasks from the front while they are due.
  unfoldable pub take_due : ℕ → List (DelayedTask A) → List (DelayedTask A) × List (DelayedTask A)
  unfolding is_due
  take_due now [] = ([], [])
  take_due now (x ∷ xs) =
      let (due, rest) = take_due now xs in
      if is_due x.due_tick now then (x ∷ due, rest) else ([], x ∷ xs)

  -- The tasks that run, in order, and the loop after it.
  unfoldable pub run_due_tasks : ℕ → ℕ → Loop A → List (DelayedTask A) × Loop A
  unfolding take_due arm_timer
  run_due_tasks freq now l =
      let (due, rest) = take_due now l.delayed in
      (due, arm_timer freq now (record l { delayed = rest }))

  unfoldable pub on_timer_expired : ℕ → Loop A → Loop A
  unfolding enqueue ticks_to_ms
  on_timer_expired freq l =
      let (r, code) = enqueue l.running Message.timer_fire l.ring in
      if not l.running || l.timer_message_queued
      then l
      else if is_success code
      then record l { ring = r; timer_message_queued = true }
      else record l { timer = some (ticks_to_ms freq 1) }

  -- `Dispatch` of the timer's message.
  unfoldable pub dispatch_timer : ℕ → ℕ → Loop A → List (DelayedTask A) × Loop A
  unfolding run_due_tasks
  dispatch_timer freq now l =
      if not l.running
      then ([], record l { timer_message_queued = false })
      else run_due_tasks freq now (record l { timer_message_queued = false })

-- `AcquireWaiter`: the first free slot, taken; none where the source returns -1.
unfoldable pub acquire_waiter : List Bool → List Bool × Option ℕ
acquire_waiter [] = ([], none)
acquire_waiter (false ∷ ws) = (true ∷ ws, some 0)
acquire_waiter (true ∷ ws) =
    let (ws', slot) = acquire_waiter ws in
    (true ∷ ws', elim slot [ none ↦ none | some i ↦ some (suc i) ])
