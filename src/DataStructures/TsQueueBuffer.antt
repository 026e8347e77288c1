-- ===== src/DataStructures/TsQueueBuffer.antt =====
-- src/datastructures/ts_queue_buffer.h, and src/datastructures/ts_queue.h on top of it: the removal
-- of the oldest item over all thread-local buffers, one shared access at a time. Before each access
-- the other threads may act on the buffers. A stamp is read at once. The random start of a pass, the
-- time it begins at, and whether a weak exchange fails without a reason are arguments. The two stamps
-- on the stack, which the source uses in turns, are values here. Items are uint64_t, and `(T)NULL`
-- is 0.
pub mod Visit
pub mod Emptiness
pub mod Knows
pub mod Oldest
pub mod Ends
mod Examples
use scal.Prelude.{
  ℕ, zero, suc, ◌+◌, ◌%◌, Bool, true, false, not, ◌||◌, Option, none, some, update, Cell, same,
  ◌==◌, if◌then◌else◌, List, [], ◌∷◌,
}
use scal.DataStructures.TsTimestamp.{Stamp}
use scal.DataStructures.TsBuffer.{Item, Buffer, oldest, removed_to, insert_item, stamp_item}

-- The operations of a kind of time stamps that a removal uses.
pub record Timestamping : Type 0 where
  pub is_later : Stamp → Stamp → Bool
  pub top : Stamp

-- The buffers, and one thread's `emptiness_check_pointers_`; the clock counts its accesses.
pub record TsQueueBuffer : Type 0 where
  pub buffers : ℕ → Buffer
  pub checks : ℕ → Cell
  pub clock : ℕ

-- The candidate for removal: `result`, `buffer_index` and `old_remove`.
pub record Choice : Type 0 where
  pub buffer_index : ℕ
  pub result : ℕ
  pub old_remove : Cell

-- The locals of a pass: `empty`, `timestamp` and the candidate.
pub record Pass : Type 0 where
  pub empty : Bool
  pub timestamp : Stamp
  pub choice : Option Choice

-- `insert_left`, and `insert_right` alike, by the owner of a buffer.
unfoldable pub insert_left : Timestamping → (thread_id element : ℕ) → TsQueueBuffer → TsQueueBuffer
insert_left ts thread_id element q = record q {
  buffers = update q.buffers thread_id (insert_item ts.top element (q.buffers thread_id));
}

-- `TSQueue::enqueue`, where the new item gets the stamp that is taken after it was inserted.
unfoldable pub enqueue :
    Timestamping → (thread_id element : ℕ) → Stamp → TsQueueBuffer → TsQueueBuffer
enqueue ts thread_id element stamp q =
    let inserted = insert_left ts thread_id element q in
    let b = inserted.buffers thread_id in
    record inserted { buffers = update inserted.buffers thread_id (stamp_item b.insert stamp b) }

abbrev pub start_pass : Timestamping → Pass
start_pass ts = record { empty = true; timestamp = ts.top; choice = none }

-- What a round of `TSQueue::dequeue` reads beside the buffers.
pub record Round : Type 0 where
  pub start : ℕ
  pub start_time : Stamp
  pub spurious : Bool

module _ (ts : Timestamping) (interference : ℕ → (ℕ → Buffer) → ℕ → Buffer) (num_threads : ℕ) where
  -- The other threads act.
  unfoldable pub tick : TsQueueBuffer → TsQueueBuffer
  tick q = record q { buffers = interference q.clock q.buffers; clock = suc q.clock }

  -- The item of a buffer that is not empty becomes the candidate if it is older.
  abbrev pub compare_item : Pass → Choice → Stamp → Pass
  compare_item p c item_timestamp =
      if ts.is_later p.timestamp item_timestamp
      then record { empty = false; timestamp = item_timestamp; choice = some c }
      else record p { empty = false }

  -- The body of the loop, at one buffer.
  unfoldable pub visit : (index : ℕ) → Pass → TsQueueBuffer → Pass × TsQueueBuffer
  visit index p q =
      let q₁ = tick q in
      let tmp_remove = (q₁.buffers index).remove in
      let q₂ = tick q₁ in
      let tmp_insert = (q₂.buffers index).insert in
      let q₃ = tick q₂ in
      let item = oldest (q₃.buffers index) tmp_remove in
      let q₄ = tick q₃ in
      let item_timestamp = ((q₄.buffers index).heap item).timestamp in
      if not (tmp_remove.value == tmp_insert)
      then (
        compare_item p (record { buffer_index = index; result = item; old_remove = tmp_remove })
            item_timestamp,
        q₄,
      )
      else if not (same (q₃.checks index) tmp_remove)
      then (record p { empty = false }, record q₃ { checks = update q₃.checks index tmp_remove })
      else (p, q₃)

  -- The loop over all buffers, from the i-th on, `left` more times.
  unfoldable pub scan : (start i left : ℕ) → Pass → TsQueueBuffer → Pass × TsQueueBuffer
  scan start i zero p q = (p, q)
  scan start i (suc left) p q =
      let (p', q') = visit ((start + i) % num_threads) p q in scan start (suc i) left p' q'

  -- The exchange of the remove word of the candidate's buffer; the item that was removed.
  unfoldable pub take : (spurious : Bool) → Choice → TsQueueBuffer → Option ℕ × TsQueueBuffer
  take spurious c q =
      let q₁ = tick q in
      let q₂ = tick q₁ in
      let b = q₂.buffers c.buffer_index in
      let removed = record q₂ {
        buffers =
            update q₂.buffers c.buffer_index
              (record b { remove = removed_to c.result c.old_remove });
      } in
      let q₃ = tick removed in
      if not (same (q₁.buffers c.buffer_index).remove c.old_remove)
      then (none, q₁)
      else if spurious || not (same b.remove c.old_remove)
      then (none, q₂)
      else (some ((q₃.buffers c.buffer_index).heap c.result).data_, q₃)

  -- What is returned, and the element that is written; 0 for none.
  unfoldable pub try_remove_right :
      (start : ℕ) (start_time : Stamp) (spurious : Bool)
      → TsQueueBuffer
      → (Bool × ℕ) × TsQueueBuffer
  try_remove_right start start_time spurious q =
      let (p, q') = scan start 0 num_threads (start_pass ts) q in
      elim p.choice [
        | none ↦ ((not p.empty, 0), q')
        | some c ↦
            if ts.is_later p.timestamp start_time
            then ((not p.empty, 0), q')
            else (let (taken, q'') = take spurious c q' in
                elim taken [
                  | some element ↦ ((true, element), q'')
                  | none ↦ ((not p.empty, 0), q'')
                ])
      ]

  -- `TSQueue::dequeue`: an element, or false; `none` when the rounds are over.
  unfoldable pub dequeue : List Round → TsQueueBuffer → Option (Option ℕ) × TsQueueBuffer
  dequeue [] q = (none, q)
  dequeue (r ∷ rounds) q =
      let ((more, element), q') = try_remove_right r.start r.start_time r.spurious q in
      let rest = dequeue rounds q' in
      if not more
      then (some none, q')
      else if not (element == 0)
      then (some (some element), q')
      else rest
