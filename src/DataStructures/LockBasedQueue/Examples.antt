-- ===== src/DataStructures/LockBasedQueue/Examples.antt =====
-- Consumers of the lock-based queue that wait, and the theorems about them.
use scal.Prelude.{◌+◌, ◌*◌, ◌<◌, ◌≡◌, List, [], ◌∷◌, true, false, some, none, refl, arith}
use scal.DataStructures.LockBasedQueue.{
  new_queue, enqueued, dequeued, Wakeup, returned, dequeue, deadline,
}
use scal.DataStructures.LockBasedQueue.Deadline.{deadline_lem}
use scal.DataStructures.LockBasedQueue.Refine.{
  Agrees, fifo_dequeue, new_queue-Represents, dequeue-refines,
}

-- A wake-up with nothing there, since another consumer was faster, and one with two items.
abbrev wakeups : List Wakeup
wakeups =
    record { actions = enqueued 5 ∷ dequeued ∷ []; timed_out = false }
    ∷ record { actions = enqueued 6 ∷ enqueued 7 ∷ []; timed_out = true }
    ∷ []

blocking_answer : fifo_dequeue 1 wakeups [] ≡ (returned (some 6), 7 ∷ [])
blocking_answer = refl

timed_answer : fifo_dequeue 2 wakeups [] ≡ (returned none, 6 ∷ 7 ∷ [])
timed_answer = refl

dequeue-refines_example : Agrees 1 (dequeue wakeups (new_queue 1 0)) (fifo_dequeue 1 wakeups [])
dequeue-refines_example = dequeue-refines wakeups 1 (new_queue 1 0) [] (new_queue-Represents 1 0)

deadline_lem_example :
    ((deadline 100 999999 1500).tv_nsec < 1000000000)
    × ((deadline 100 999999 1500).tv_sec * 1000000000 + (deadline 100 999999 1500).tv_nsec
        ≡ 100 * 1000000000 + 999999 * 1000 + 1500 * 1000000)
deadline_lem_example = deadline_lem 100 999999 1500 (omega arith) (omega arith)
