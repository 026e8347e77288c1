-- ===== src/DataStructures/MsQueue/Examples.antt =====
-- A run of two threads on one queue: one enqueues, and the other dequeues what it has linked before
-- the tail has moved.
use scal.Prelude.{ℕ, ◌≡◌, refl, arith, next_aba, [], ◌∷◌, some}
use scal.DataStructures.MsQueue.{Shared, Pc, Move, System, step, Reach, start, later, init, event}
use scal.DataStructures.History.{History, recorded, put_called, get_called, get_returned}
use scal.DataStructures.MsQueue.Invariant.{Log, Inv}
use scal.DataStructures.MsQueue.Linearizable.{view, ms_linearizable}
use scal.DataStructures.MsQueue.Spec.{Behaviour}

record Run : Type 0 where
  history : History
  last : System
  reach : Reach history last

abbrev go : (r : Run) (i : ℕ) {m : Shared} {p : Pc} → Move r.last.mem (r.last.pc i) m p → Run
go r i mv = record {
  history = recorded i (event mv) r.history;
  last = _;
  reach = later r.reach (step i mv);
}

abbrev fresh_run : Run
fresh_run = record { history = []; last = init; reach = start }

-- Thread 0 has linked its node, and has not moved the tail.
abbrev linked : Run
linked =
    go
      (go
        (go
          (go (go fresh_run 0 (Move.call_enqueue {n = 2} 7 (λ e. omega arith) refl)) 0
            Move.load_tail)
          0 Move.load_next)
        0 (Move.enq_end refl refl))
      0 (Move.enq_wins refl)

-- Thread 1 finds the tail behind, and helps.
abbrev helped : Run
helped =
    go
      (go
        (go (go (go (go linked 1 Move.call_dequeue) 1 Move.deq_head) 1 Move.deq_reads_tail) 1
          Move.deq_reads_next)
        1 (Move.deq_behind refl refl (λ e. omega arith)))
      1 (Move.deq_helps refl)

abbrev taken : Run
taken =
    go
      (go
        (go (go (go (go helped 1 Move.deq_head) 1 Move.deq_reads_tail) 1 Move.deq_reads_next) 1
          (Move.deq_some refl (λ e. omega arith)))
        1 Move.load_item)
      1 (Move.deq_wins refl)

abbrev returned : Run
returned = go taken 1 Move.return

-- The item that was linked is what the dequeue answers, before the enqueue has returned.
two_threads :
    (returned.history ≡ (1, get_returned (some 7)) ∷ (1, get_called) ∷ (0, put_called 7) ∷ [])
    × (returned.last.mem.head ≡ record { value = 2; aba = 1 })
unfolding next_aba
two_threads = (refl, refl)

ms_linearizable_example :
    (l : Log) × Inv l returned.last.mem returned.last.pc
    × Behaviour
        ((1, get_returned (some 7)) ∷ (1, get_called) ∷ (0, put_called 7) ∷ [])
        (view returned.last l)
ms_linearizable_example = ms_linearizable returned.reach
