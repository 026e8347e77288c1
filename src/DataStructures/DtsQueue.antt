-- ===== src/DataStructures/DtsQueue.antt =====
-- src/datastructures/dts_queue.h: the queue that takes a stamp before it inserts an item, and another
-- one when a dequeue begins: an item that is not later than the latter is taken at once. Before each
-- shared access the other threads may act on the buffers, and a weak exchange may fail without a
-- reason; both are functions of the number of accesses so far. A stamp is read at once. The random
-- start of a pass and the stamps that are taken are arguments. The two stamps on the stack, which the
-- source uses in turns, are values here. Items are uint64_t, and `(T)NULL` is 0. The debug counters
-- are left out.
pub mod Quiet
pub mod Blocks
pub mod Sees
pub mod Scan
pub mod Removal
mod Examples
use scal.Prelude.{
  ℕ, zero, suc, ◌+◌, ◌%◌, Bool, true, false, not, ◌||◌, Option, none, some, List, [], ◌∷◌, update,
  Cell, same, ◌==◌, if◌then◌else◌,
}
use scal.DataStructures.TsTimestamp.{Stamp, is_later, uint64_max}
use scal.DataStructures.TsBuffer.{Buffer, oldest, removed_to, insert_item}

-- The buffers; the clock counts the accesses of the thread that runs.
pub record DtsQueue : Type 0 where
  pub buffers : ℕ → Buffer
  pub clock : ℕ

-- The oldest item so far: `result`, `buffer_index` and `old_remove`.
pub record FoundItem : Type 0 where
  pub buffer_index : ℕ
  pub result : ℕ
  pub old_remove : Cell

-- The locals of a pass: `timestamp`, and the item that has it.
pub record Locals : Type 0 where
  pub timestamp : Stamp
  pub found : Option FoundItem

-- What a thread has loaded of a buffer.
pub record Look : Type 0 where
  pub tmp_remove : Cell
  pub tmp_insert : ℕ
  pub item : ℕ

-- `enqueue` and its `insert_element`, with the stamp that is taken for the item.
unfoldable pub enqueue : (thread_id element : ℕ) → Stamp → DtsQueue → DtsQueue
enqueue thread_id element stamp q = record q {
  buffers = update q.buffers thread_id (insert_item stamp element (q.buffers thread_id));
}

-- The locals before the first buffer; `init_top` sets the first word of a stamp.
abbrev pub start_locals : Locals
start_locals = record { timestamp = record { first = uint64_max; second = 0 }; found = none }

-- What the test `get_aba_free_pointer(tmp_remove) != tmp_insert` denies.
abbrev pub is_vacant : Look → Bool
is_vacant l = l.tmp_remove.value == l.tmp_insert

-- The item of a buffer that is not empty is remembered if it is older.
unfoldable pub keep_older : (index : ℕ) → Look → (item_timestamp : Stamp) → Locals → Locals
keep_older index l item_timestamp p =
    if is_vacant l
    then p
    else if is_later p.timestamp item_timestamp
    then record {
      timestamp = item_timestamp;
      found = some (record { buffer_index = index; result = l.item; old_remove = l.tmp_remove });
    }
    else p

module _ (interference : ℕ → (ℕ → Buffer) → ℕ → Buffer) (spurious : ℕ → Bool)
    (num_threads : ℕ) where
  -- The other threads act.
  unfoldable pub others_act : DtsQueue → DtsQueue
  others_act q = record q { buffers = interference q.clock q.buffers; clock = suc q.clock }

  -- The three loads at the begin of a visit, and after a failed exchange.
  unfoldable pub look : (index : ℕ) → DtsQueue → Look × DtsQueue
  look index q =
      let q₁ = others_act q in
      let tmp_remove = (q₁.buffers index).remove in
      let q₂ = others_act q₁ in
      let tmp_insert = (q₂.buffers index).insert in
      let q₃ = others_act q₂ in
      (
        record {
          tmp_remove = tmp_remove;
          tmp_insert = tmp_insert;
          item = oldest (q₃.buffers index) tmp_remove;
        },
        q₃,
      )

  unfoldable pub load_timestamp : (index item : ℕ) → DtsQueue → Stamp × DtsQueue
  load_timestamp index item q =
      let q₁ = others_act q in (((q₁.buffers index).heap item).timestamp, q₁)

  -- The exchange of a remove word, and the load of the element of the item.
  unfoldable pub remove_item :
      (index item : ℕ) → (old_remove : Cell) → DtsQueue → Option ℕ × DtsQueue
  remove_item index item old_remove q =
      let q₁ = others_act q in
      let q₂ = others_act q₁ in
      let b = q₂.buffers index in
      let removed = record q₂ {
        buffers = update q₂.buffers index (record b { remove = removed_to item old_remove });
      } in
      let q₃ = others_act removed in
      if not (same (q₁.buffers index).remove old_remove)
      then (none, q₁)
      else if spurious q₂.clock || not (same b.remove old_remove)
      then (none, q₂)
      else (some ((q₃.buffers index).heap item).data_, q₃)

  -- After a failed exchange the buffer is looked at again.
  unfoldable pub look_again : (index : ℕ) (stamp : Stamp) → Locals → DtsQueue → Locals × DtsQueue
  look_again index stamp p q =
      let (l, q₁) = look index q in
      let (stamp', q₂) = load_timestamp index l.item q₁ in
      if is_vacant l then (keep_older index l stamp p, q₁) else (keep_older index l stamp' p, q₂)

  -- The body of the loop: the element that is taken at once, or none.
  unfoldable pub visit_buffer :
      (dequeue_timestamp : Stamp) (index : ℕ) → Locals → DtsQueue → (Option ℕ × Locals) × DtsQueue
  visit_buffer dequeue_timestamp index p q =
      let (l, q₁) = look index q in
      let (stamp, q₂) = load_timestamp index l.item q₁ in
      let (taken, q₃) = remove_item index l.item l.tmp_remove q₂ in
      let (p', q₄) = look_again index stamp p q₃ in
      if is_vacant l
      then ((none, p), q₁)
      else if is_later stamp dequeue_timestamp
      then ((none, keep_older index l stamp p), q₂)
      else elim taken [ some element ↦ ((some element, p), q₃) | none ↦ ((none, p'), q₄) ]

  -- The loop over all buffers, from the i-th on, `left` more times.
  unfoldable pub scan_buffers :
      (dequeue_timestamp : Stamp) (start i left : ℕ)
      → Locals
      → DtsQueue
      → (Option ℕ × Locals) × DtsQueue
  scan_buffers dequeue_timestamp start i zero p q = ((none, p), q)
  scan_buffers dequeue_timestamp start i (suc left) p q =
      let ((taken, p'), q') = visit_buffer dequeue_timestamp ((start + i) % num_threads) p q in
      let rest = scan_buffers dequeue_timestamp start (suc i) left p' q' in
      elim taken [ some element ↦ ((some element, p'), q') | none ↦ rest ]

  -- It always returns true; the element that it writes is 0 if nothing was removed.
  unfoldable pub try_remove_oldest :
      (dequeue_timestamp : Stamp) (start : ℕ) → DtsQueue → ℕ × DtsQueue
  try_remove_oldest dequeue_timestamp start q =
      let ((taken, p), q') = scan_buffers dequeue_timestamp start 0 num_threads start_locals q in
      elim taken [
        | some element ↦ (element, q')
        | none ↦ elim p.found [
          | none ↦ (0, q')
          | some c ↦
              (let (removed, q'') = remove_item c.buffer_index c.result c.old_remove q' in
                elim removed [ some element ↦ (element, q'') | none ↦ (0, q'') ])
        ]
      ]

  -- The element, with the random start of each round; `none` when the rounds are over.
  unfoldable pub dequeue :
      (dequeue_timestamp : Stamp) → (starts : List ℕ) → DtsQueue → Option ℕ × DtsQueue
  dequeue dequeue_timestamp [] q = (none, q)
  dequeue dequeue_timestamp (start ∷ starts) q =
      let (element, q') = try_remove_oldest dequeue_timestamp start q in
      let rest = dequeue dequeue_timestamp starts q' in
      if not (element == 0) then (some element, q') else rest
