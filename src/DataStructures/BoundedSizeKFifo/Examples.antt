-- ===== src/DataStructures/BoundedSizeKFifo/Examples.antt =====
-- Runs of a bounded k-FIFO queue of two segments of one slot: the first time round the array it
-- answers that it is full, the second time `enqueue` does not return.
use scal.Prelude.{
  true, for_from, same, next_aba, if◌then◌else◌, ◌==◌, ℕ, zero, suc, ◌≡◌, ◌≢◌, ◌<◌, Bool, false,
  Option, none, some, List, [], ◌∷◌, refl, arith,
}
use scal.DataStructures.BoundedSizeKFifo.{
  KFifo, new, enqueue, dequeue, enqueue_loop, enqueue_round, dequeue_round, Exit, done, out_of_fuel,
  aborted, find_index, advance_head, advance_tail, queue_full, segment_not_empty, committed,
}
use scal.DataStructures.BoundedSizeKFifo.Commit.{committed-outcome, Commits}
use scal.DataStructures.BoundedSizeKFifo.Operations.{
  dequeue_round-outcome, enqueue_round-outcome, DequeueRound, EnqueueRound,
}
use scal.DataStructures.BoundedSizeKFifo.Full.{IsFullAndWrapped, enqueue_stuck}

abbrev random : ℕ → ℕ
random n = n

abbrev state_of : {A : Type 0} → Exit A → KFifo → KFifo
state_of (done a q) _ = q
state_of out_of_fuel q = q
state_of aborted q = q

data Op : Type 0 where
  enq : ℕ → Op
  deq : Op

-- The state after some calls, with fuel for eight rounds each.
after : List Op → KFifo → KFifo
unfolding new enqueue dequeue enqueue_loop enqueue_round dequeue_round find_index advance_head
    advance_tail queue_full segment_not_empty committed for_from same next_aba
after [] q = q
after (enq x ∷ ops) q = after ops (state_of (enqueue random x 8 q) q)
after (deq ∷ ops) q = after ops (state_of (dequeue random 8 q) q)

abbrev answer : Exit Bool → Option Bool
answer (done b q) = some b
answer _ = none

abbrev ring : KFifo
ring = new 1 2

full_first_time : answer (enqueue random 5 8 (after (enq 3 ∷ enq 4 ∷ []) ring)) ≡ some false
unfolding after
full_first_time = refl

-- The slots are full again, and the head stands past the end of the array.
second_time : KFifo
unfolding after
second_time = after (enq 3 ∷ enq 4 ∷ deq ∷ enq 5 ∷ deq ∷ deq ∷ enq 6 ∷ enq 7 ∷ []) ring

second_time-slots :
    ((second_time.queue 0).value ≡ 7)
    × ((second_time.queue 1).value ≡ 6)
    × (second_time.head.value ≡ 2)
    × (second_time.queue_size ≡ 2)
unfolding second_time
second_time-slots = (refl, refl, refl, refl)

second_time-IsFullAndWrapped : IsFullAndWrapped second_time
second_time-IsFullAndWrapped = record {
  slots = omega (arith, second_time-slots.3);
  wrapped = omega (arith, second_time-slots.2, second_time-slots.3);
  taken = taken;
}
  where
    taken : (i : ℕ) → i < second_time.queue_size → (second_time.queue i).value ≢ 0
    taken zero h e = cc (second_time-slots.0)
    taken (suc zero) h e = cc (second_time-slots.1)
    taken (suc (suc i)) h e = absurd (omega (arith, second_time-slots.3))

enqueue_stuck_example : enqueue random 8 1000 second_time ≡ out_of_fuel
enqueue_stuck_example =
    enqueue_stuck random 8 1000 second_time (λ e. omega arith) second_time-IsFullAndWrapped

-- Two segments of two slots, with an item in the second slot.
abbrev half_full : KFifo
half_full = record {
  k = 2;
  queue_size = 4;
  queue = λ i. if i == 1 then record { value = 9; aba = 3 } else record { value = 0; aba = 0 };
  head = record { value = 0; aba = 0 };
  tail = record { value = 0; aba = 0 };
}

-- The tail's word has wrapped around: head at segment 2, tail at segment 0; segment 1 lies outside.
abbrev wrapped : KFifo
wrapped = record {
  k = 1;
  queue_size = 4;
  queue = λ i. record { value = 9; aba = 3 };
  head = record { value = 2; aba = 0 };
  tail = record { value = 0; aba = 0 };
}

-- An item there is reported as enqueued all the same.
outside_succeeds : (committed wrapped 1 (record { value = 9; aba = 3 }) 1).0 ≡ true
unfolding committed same
outside_succeeds = refl

committed-outcome_example :
    Commits wrapped 1
      (record { value = 9; aba = 3 })
      1
      (committed wrapped 1 (record { value = 9; aba = 3 }) 1)
committed-outcome_example = committed-outcome wrapped 1 (record { value = 9; aba = 3 }) 1

dequeue_round-outcome_example : DequeueRound half_full (dequeue_round 4 half_full)
dequeue_round-outcome_example = dequeue_round-outcome 4 half_full

enqueue_round-outcome_example : EnqueueRound half_full 8 (enqueue_round 8 4 half_full)
enqueue_round-outcome_example = enqueue_round-outcome 8 4 half_full
