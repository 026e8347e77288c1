-- ===== src/DataStructures/TsQueueBuffer/Examples.antt =====
-- Two threads' buffers with stamps from a counter, and the theorems about them.
use scal.Prelude.{
  same, false-true, sym, ◌∙◌, ℕ, ◌<◌, ◌≡◌, ◌≢◌, ◌⊎◌, true, false, none, some, List, [], ◌∷◌, refl,
  arith, update, ◌==◌, if◌then◌else◌,
}
use scal.DataStructures.TsTimestamp.{Stamp, is_later, uint64_max}
use scal.DataStructures.TsBuffer.{
  Buffer, new_buffer, insert_item, stamp_item, oldest, removed_to, is_empty,
}
use scal.DataStructures.TsBuffer.Onward.{Onward}
use scal.DataStructures.TsQueueBuffer.{
  Timestamping, TsQueueBuffer, Round, enqueue, insert_left, tick, visit, scan, take,
  try_remove_right, dequeue,
}
use scal.DataStructures.TsQueueBuffer.Knows.{IsOrder, quiet}
use scal.DataStructures.TsQueueBuffer.Oldest.{Removed, Kept, try_remove_right-oldest}
use scal.DataStructures.TsQueueBuffer.Ends.{fair, dequeue_returns}

abbrev at_time : ℕ → Stamp
at_time t = record { first = t; second = 0 }

abbrev counter_stamps : Timestamping
counter_stamps = record { is_later = is_later; top = at_time uint64_max }

abbrev AnyStamp : Stamp → Type 0
AnyStamp s = Unit

counter_stamps-IsOrder : IsOrder counter_stamps AnyStamp
unfolding is_later
counter_stamps-IsOrder = record {
  irreflexive = λ s p. ground arith;
  transitive = λ s t u ps pt pu h k. ground (arith, h, k);
  top = tt;
}

abbrev fresh : TsQueueBuffer
fresh = record {
  buffers = λ _. new_buffer (at_time 0);
  checks = λ _. record { value = 0; aba = 0 };
  clock = 0;
}

-- Thread 0 enqueues 10 at time 1 and 30 at time 3, thread 1 enqueues 20 at time 2.
abbrev three_items : TsQueueBuffer
three_items =
    enqueue counter_stamps 0 30 (at_time 3)
      (enqueue counter_stamps 1 20 (at_time 2) (enqueue counter_stamps 0 10 (at_time 1) fresh))

-- A removal that begins at buffer 1 takes the oldest item all the same.
oldest_taken :
    (try_remove_right counter_stamps quiet 2 1 (at_time 4) false three_items).0 ≡ (true, 10)
unfolding try_remove_right scan visit take tick enqueue insert_left insert_item stamp_item
    new_buffer is_later same
oldest_taken = refl

-- Of items that were stamped after the removal began, none is taken.
too_late : (try_remove_right counter_stamps quiet 2 1 (at_time 0) false three_items).0 ≡ (true, 0)
unfolding try_remove_right scan visit take tick enqueue insert_left insert_item stamp_item
    new_buffer is_later same
too_late = refl

try_remove_right-oldest_example :
    Removed counter_stamps 2
      (at_time 4)
      three_items.buffers
      (try_remove_right counter_stamps quiet 2 1 (at_time 4) false three_items).0.1
      (try_remove_right counter_stamps quiet 2 1 (at_time 4) false three_items).1.buffers
    ⊎ Kept counter_stamps 2
        (at_time 4)
        three_items.buffers
        (try_remove_right counter_stamps quiet 2 1 (at_time 4) false three_items).0.1
        (try_remove_right counter_stamps quiet 2 1 (at_time 4) false three_items).1.buffers
try_remove_right-oldest_example =
    try_remove_right-oldest counter_stamps AnyStamp 2 1 (at_time 4) three_items
      counter_stamps-IsOrder (λ k. tt)

-- At the second access, another thread has put an item in buffer 1, and taken the oldest one.
abbrev passed : Buffer → Buffer
passed b =
    let c = insert_item (at_time 5) 7 b in
    record c { remove = removed_to (oldest c c.remove) c.remove }

abbrev passing : ℕ → (ℕ → Buffer) → ℕ → Buffer
passing t bs = if t == 1 then update bs 1 (passed (bs 1)) else bs

abbrev two_rounds : List Round
two_rounds = fair 0 (at_time 9) ∷ fair 1 (at_time 9) ∷ []

new_buffer-empty : is_empty (new_buffer (at_time 0)) ≡ true
unfolding new_buffer
new_buffer-empty = refl

dequeue_returns_example :
    (((dequeue counter_stamps quiet 2 two_rounds fresh).0 ≡ some none)
      × ((k : ℕ) → k < 2 → is_empty (fresh.buffers k) ≡ true))
    ⊎ ((x : ℕ) × ((dequeue counter_stamps quiet 2 two_rounds fresh).0 ≡ some (some x))
        × (x ≢ 0)
        × Removed counter_stamps 2
            (at_time 9)
            fresh.buffers
            x
            (try_remove_right counter_stamps quiet 2 0 (at_time 9) false fresh).1.buffers)
dequeue_returns_example =
    dequeue_returns counter_stamps 2 AnyStamp 0 1 (at_time 9) (at_time 9) fresh
      counter_stamps-IsOrder (omega arith) (λ k. tt)
      (λ k full. absurd (false-true (sym full ∙ new_buffer-empty)))
