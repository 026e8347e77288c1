-- ===== src/DataStructures/DtsQueue/Examples.antt =====
-- Two threads' buffers, and the theorems about them.
use scal.Prelude.{
  ℕ, ◌<◌, ◌≡◌, ◌≢◌, true, false, none, some, [], ◌∷◌, refl, arith, same, sym, ◌==◌, ℕ_discrete,
  subst,
}
use scal.DataStructures.TsTimestamp.{Stamp, is_later}
use scal.DataStructures.TsBuffer.{new_buffer, insert_item, is_empty}
use scal.DataStructures.TsQueueBuffer.Knows.{quiet}
use scal.DataStructures.DtsQueue.{
  DtsQueue, enqueue, others_act, look, load_timestamp, remove_item, look_again, visit_buffer,
  keep_older, scan_buffers, try_remove_oldest, dequeue,
}
use scal.DataStructures.DtsQueue.Quiet.{first_element}
use scal.DataStructures.DtsQueue.Blocks.{dequeue-blocks}
use scal.DataStructures.DtsQueue.Removal.{Removes, HasItem, dequeue-Removes}

abbrev at_time : ℕ → Stamp
at_time t = record { first = t; second = 0 }

abbrev fresh : DtsQueue
fresh = record { buffers = λ _. new_buffer (at_time 0); clock = 0 }

-- Thread 0 enqueues 10 at time 1 and 30 at time 3, thread 1 enqueues 20 at time 2.
abbrev three_items : DtsQueue
three_items = enqueue 0 30 (at_time 3) (enqueue 1 20 (at_time 2) (enqueue 0 10 (at_time 1) fresh))

-- A dequeue that begins at time 4 at buffer 1 takes that buffer's item at once.
taken_at_once : (dequeue quiet (λ _. false) 2 (at_time 4) (1 ∷ []) three_items).0 ≡ some 20
unfolding dequeue try_remove_oldest scan_buffers visit_buffer look load_timestamp remove_item
    others_act enqueue insert_item new_buffer is_later same
taken_at_once = refl

-- If all items are later than the dequeue, the oldest one is taken.
oldest_taken : (dequeue quiet (λ _. false) 2 (at_time 0) (1 ∷ []) three_items).0 ≡ some 10
unfolding dequeue try_remove_oldest scan_buffers visit_buffer look load_timestamp remove_item
    others_act enqueue insert_item new_buffer is_later same keep_older
oldest_taken = refl

-- An exchange that fails without a reason: the item becomes a candidate, and is taken by the last one.
taken_later : (dequeue quiet (λ t. t == 6) 1 (at_time 4) (0 ∷ []) three_items).0 ≡ some 10
unfolding dequeue try_remove_oldest scan_buffers visit_buffer look load_timestamp remove_item
    others_act enqueue insert_item new_buffer is_later same keep_older look_again
taken_later = refl

new_buffer-empty : is_empty (new_buffer (at_time 0)) ≡ true
unfolding new_buffer
new_buffer-empty = refl

dequeue-blocks_example :
    ((dequeue quiet (λ _. false) 2 (at_time 4) (0 ∷ 1 ∷ 1 ∷ []) fresh).0 ≡ none)
    × ((dequeue quiet (λ _. false) 2 (at_time 4) (0 ∷ 1 ∷ 1 ∷ []) fresh).1.buffers ≡ fresh.buffers)
dequeue-blocks_example =
    dequeue-blocks (λ _. false) 2 (omega arith) (at_time 4) (0 ∷ 1 ∷ 1 ∷ []) fresh
      (λ k lt. new_buffer-empty)

one_item : DtsQueue
one_item = enqueue 0 10 (at_time 1) fresh

one_item-HasItem : HasItem 1 one_item.buffers
unfolding one_item enqueue insert_item new_buffer
one_item-HasItem = record {
  index = 0;
  in_range = omega arith;
  filled = refl;
  stamped = omega arith;
}

first_is_ten : first_element (one_item.buffers 0) ≡ 10
unfolding one_item enqueue insert_item new_buffer
first_is_ten = refl

dequeue-Removes_example :
    let (r, q') = dequeue quiet (λ _. false) 1 (at_time 4) (0 ∷ 0 ∷ []) one_item in
    (x : ℕ) × (r ≡ some x) × Removes 1 (at_time 4) one_item.buffers x q'.buffers
dequeue-Removes_example = dequeue-Removes 1 (at_time 4) 0 (0 ∷ []) one_item one_item-HasItem proper
  where
    proper :
        (k : ℕ)
        → k < 1
        → is_empty (one_item.buffers k) ≡ false
        → first_element (one_item.buffers k) ≢ 0
    proper k lt full is_zero = elim (ℕ_discrete 0 k) [
      | yes here ↦ absurd (
          omega (
            arith,
            first_is_ten,
            subst (λ k. first_element (one_item.buffers k) ≡ 0) (sym here) is_zero,
          ))
      | no ne ↦ absurd (omega arith)
    ]
