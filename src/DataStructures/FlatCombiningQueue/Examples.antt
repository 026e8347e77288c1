-- ===== src/DataStructures/FlatCombiningQueue/Examples.antt =====
-- Two threads of a flat-combining queue, and the theorems about it at small queues.
use scal.Prelude.{◌≡◌, List, [], ◌∷◌, true, some, refl, All, length, arith}
use scal.DataStructures.SingleList.{new_list}
use scal.DataStructures.SingleList.Refine.{Represents, new_list-Represents}
use scal.DataStructures.FlatCombiningQueue.{
  FlatCombiningQueue, Operation, done, enqueue_op, dequeue_op, new_queue, scan, enqueue, dequeue,
}
use scal.DataStructures.FlatCombiningQueue.Serve.{serve, IsDone, scan-serve}
use scal.DataStructures.FlatCombiningQueue.Quiescent.{
  IsQuiescent, enqueue-quiescent, dequeue-quiescent, new_queue-IsQuiescent,
}

-- Slot 0 dequeues, before slot 1 enqueues, and slot 2 dequeues after that.
abbrev announced : List Operation
announced =
    record { opcode = dequeue_op; data_ = 0 }
    ∷ record { opcode = enqueue_op; data_ = 7 }
    ∷ record { opcode = dequeue_op; data_ = 0 }
    ∷ []

served_in_order :
    (serve announced []).0
    ≡ record { opcode = done; data_ = 0 }
      ∷ record { opcode = done; data_ = 0 }
      ∷ record { opcode = done; data_ = 7 }
      ∷ []
served_in_order = refl

scan-serve_example :
    ((scan announced new_list).0 ≡ (serve announced []).0)
    × Represents (scan announced new_list).1 (serve announced []).1
    × All IsDone (scan announced new_list).0
scan-serve_example = scan-serve announced new_list [] new_list-Represents

abbrev two_slots : FlatCombiningQueue
two_slots = new_queue 2

two_slots-size : length two_slots.operations ≡ 2
unfolding new_queue
two_slots-size = refl

enqueue-quiescent_example :
    (q' : FlatCombiningQueue) × (enqueue 1 1 7 two_slots ≡ some (true, q'))
    × IsQuiescent q' (7 ∷ [])
    × (length q'.operations ≡ length two_slots.operations)
enqueue-quiescent_example =
    enqueue-quiescent 0 1 7 two_slots [] (omega (arith, two_slots-size)) (new_queue-IsQuiescent 2)

-- The queue after thread 1 has enqueued 7.
abbrev with_seven :
    (q' : FlatCombiningQueue) × (enqueue 1 1 7 two_slots ≡ some (true, q'))
    × IsQuiescent q' (7 ∷ [])
    × (length q'.operations ≡ length two_slots.operations)
with_seven =
    enqueue-quiescent 0 1 7 two_slots [] (omega (arith, two_slots-size)) (new_queue-IsQuiescent 2)

dequeue-quiescent_example :
    (q' : FlatCombiningQueue) × (dequeue 1 0 with_seven.0 ≡ some ((true, 7), q'))
    × IsQuiescent q' []
    × (length q'.operations ≡ length with_seven.0.operations)
dequeue-quiescent_example =
    dequeue-quiescent 0 0 with_seven.0 (7 ∷ []) (omega (arith, with_seven.3, two_slots-size))
      with_seven.2
