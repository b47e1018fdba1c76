-- ===== src/EventLoop/Tests.antt =====
-- Delayed tasks around the wrap of the clock, and a ring of two places.
use telephony_call_manager_m.Prelude.{inr}
use telephony_call_manager_m.EventLoop.Sync.{
  Step, Reach, Slot, acquire, enqueued, complete, time_out, finish, new_slot,
}
use telephony_call_manager_m.EventLoop.Sync.Handover.{
  IsSound, CanFree, Reach-IsSound, Reach-CanFree,
}
use telephony_call_manager_m.Prelude.{ℕ, ◌≤◌, ◌<◌, ◌≡◌, ◌⊎◌, refl, true, [], ◌∷◌, arith}
use telephony_call_manager_m.Types.{Code}
use telephony_call_manager_m.EventLoop.{DelayedTask, two_32, insert_delayed}
use telephony_call_manager_m.EventLoop.Queue.{Ring, Message, new_ring, enqueue, limit_of}
use telephony_call_manager_m.EventLoop.Fifo.{IsQueue, new_ring-IsQueue, enqueue-IsQueue}
use telephony_call_manager_m.EventLoop.Tick.{InWindow}
use telephony_call_manager_m.EventLoop.Order.{AllIn, IsOrdered, Placed, insert_delayed-IsOrdered}

-- 10 ticks before the wrap.
abbrev base : ℕ
base = 4294967286

abbrev soon : DelayedTask ℕ
soon = record { id = 1; due_tick = 4294967290; task = 100 }

-- After the wrap.
abbrev late : DelayedTask ℕ
late = record { id = 2; due_tick = 20; task = 200 }

abbrev between : DelayedTask ℕ
between = record { id = 3; due_tick = 4294967295; task = 300 }

inserted : insert_delayed between (soon ∷ late ∷ []) ≡ soon ∷ between ∷ late ∷ []
unfolding insert_delayed
inserted = refl

base_lt : base < two_32
base_lt = omega arith

between-InWindow : InWindow base between.due_tick
between-InWindow = (omega arith, omega arith)

table-AllIn : AllIn base (soon ∷ late ∷ [])
table-AllIn = ((omega arith, omega arith), ((omega arith, omega arith), tt))

table-IsOrdered : IsOrdered base (soon ∷ late ∷ [])
table-IsOrdered = ((omega arith, tt), (tt, tt))

insert_delayed-IsOrdered_example :
    Placed base between (soon ∷ late ∷ []) (insert_delayed between (soon ∷ late ∷ []))
    × IsOrdered base (insert_delayed between (soon ∷ late ∷ []))
insert_delayed-IsOrdered_example =
    insert_delayed-IsOrdered base between (soon ∷ late ∷ []) base_lt between-InWindow table-AllIn
      table-IsOrdered

abbrev two_places : Ring (Message ℕ)
two_places = new_ring 2

abbrev five : Message ℕ
five = Message.async_task 5

enqueue-IsQueue_example :
    ((limit_of five two_places ≤ 0)
      × (enqueue true five two_places ≡ (two_places, Code.ipc_connect_stub_fail)))
    ⊎ ((0 < limit_of five two_places)
        × ((enqueue true five two_places).1 ≡ Code.success)
        × IsQueue (enqueue true five two_places).0 (five ∷ []))
enqueue-IsQueue_example = enqueue-IsQueue five two_places [] (new_ring-IsQueue 2)

-- A call that gave up, with its message still in the queue.
abbrev given_up : Slot
given_up = finish 0 (time_out 0 (enqueued 0 (acquire new_slot)))

given_up-Reach : Reach new_slot given_up
unfolding acquire enqueued time_out finish
given_up-Reach =
    Reach.after
      (Reach.after
        (Reach.after (Reach.after Reach.here (Step.acquires refl)) (Step.enqueues 0 refl))
        (Step.times_out 0 refl))
      (Step.finishes 0 (inr refl))

-- The loop completes it, and a second call takes the slot.
abbrev taken_again : Slot
taken_again = acquire (complete 0 Code.success given_up)

taken_again-Reach : Reach new_slot taken_again
unfolding acquire enqueued time_out finish complete
taken_again-Reach =
    Reach.after (Reach.after given_up-Reach (Step.completes 0 Code.success refl))
      (Step.acquires refl)

Reach-IsSound_example : IsSound taken_again
Reach-IsSound_example = Reach-IsSound taken_again taken_again-Reach

Reach-CanFree_example : CanFree given_up
Reach-CanFree_example = Reach-CanFree given_up given_up-Reach
