-- ===== src/DataStructures/TsBuffer.antt =====
-- The thread-local buffers that src/datastructures/ts_queue_buffer.h and dts_queue.h keep alike: for
-- each thread a linked list of items behind a sentinel, which its owner extends at `insert` and all
-- threads shorten at `remove`. Each buffer has its own memory, that of its owner's allocator, whose
-- addresses grow. A remove word is a pair of an address and a counter of 3 bits; Pointer shows that
-- the packing of the source is that pair.
pub mod Pointer
pub mod Onward
mod Examples
use scal.Prelude.{ℕ, ◌+◌, ◌%◌, update, Cell, Bool, ◌==◌}
use scal.DataStructures.TsTimestamp.{Stamp}

pub record Item : Type 0 where
  pub next : ℕ
  pub data_ : ℕ
  pub timestamp : Stamp

pub record Buffer : Type 0 where
  pub heap : ℕ → Item
  pub allocated : ℕ
  pub insert : ℕ
  pub remove : Cell

-- `initialize`, of one buffer: a sentinel with the given stamp.
unfoldable pub new_buffer : (sentinel : Stamp) → Buffer
new_buffer sentinel = record {
  heap = λ _. record { next = 0; data_ = 0; timestamp = sentinel };
  allocated = 2;
  insert = 1;
  remove = record { value = 1; aba = 0 };
}

-- A new item with a stamp, behind the last one.
unfoldable pub insert_item : Stamp → ℕ → Buffer → Buffer
insert_item stamp element b =
    let new_item = b.allocated in
    let filled = update b.heap new_item (record { next = 0; data_ = element; timestamp = stamp }) in
    let old_insert = b.insert in
    record b {
      heap = update filled old_insert (record (filled old_insert) { next = new_item });
      allocated = new_item + 1;
      insert = new_item;
    }

-- `timestamping_->set_timestamp(item)`
unfoldable pub stamp_item : ℕ → Stamp → Buffer → Buffer
stamp_item item stamp b = record b {
  heap = update b.heap item (record (b.heap item) { timestamp = stamp });
}

-- `(Item*)get_aba_free_pointer(tmp_remove)->next`
abbrev pub oldest : Buffer → Cell → ℕ
oldest b tmp_remove = (b.heap tmp_remove.value).next

-- `add_next_aba(item, old, 1)`
abbrev pub removed_to : ℕ → Cell → Cell
removed_to item old = record { value = item; aba = (old.aba + 1) % 8 }

-- What the test `get_aba_free_pointer(tmp_remove) != tmp_insert` denies.
abbrev pub is_empty : Buffer → Bool
is_empty b = b.remove.value == b.insert
