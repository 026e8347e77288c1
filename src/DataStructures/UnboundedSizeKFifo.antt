-- ===== src/DataStructures/UnboundedSizeKFifo.antt =====
-- src/datastructures/unboundedsize_kfifo.h: the k-FIFO queue over a linked list of segments of k
-- slots. Each function is run by one thread without interference, with every test and exchange of the
-- source; `committed` is stated for any state. Memory is a function from addresses to segments, an
-- allocation returns the least address that was not handed out, and 0 is NULL. What `pseudorand`
-- returns is an argument. Items are uint64_t.
pub mod Commit
pub mod Chain
pub mod Dequeue
pub mod Enqueue
pub mod Ends
mod Examples
use scal.Prelude.{
  ℕ, zero, suc, ◌+◌, Bool, true, false, not, Option, none, some, ◌==◌, if◌then◌else◌, update, Cell,
  same, next_aba,
}
use scal.DataStructures.KSegment.{Round, returns, again, emptied, filled, find_index as search}

pub record KSegment : Type 0 where
  pub next : Cell
  pub deleted : Bool
  pub items : ℕ → Cell

pub record UnboundedSizeKFifo : Type 0 where
  pub segments : ℕ → KSegment
  pub allocated : ℕ
  pub head : Cell
  pub tail : Cell
  pub k : ℕ

abbrev pub zero_cell : Cell
zero_cell = record { value = 0; aba = 0 }

-- `ksegment_new`
abbrev pub ksegment_new : KSegment
ksegment_new = record { next = zero_cell; deleted = false; items = λ _. zero_cell }

-- `UnboundedSizeKFifo::UnboundedSizeKFifo`
unfoldable pub new_queue : ℕ → UnboundedSizeKFifo
new_queue k = record {
  segments = λ _. ksegment_new;
  allocated = 2;
  head = record { value = 1; aba = 0 };
  tail = record { value = 1; aba = 0 };
  k = k;
}

abbrev pub next_of : UnboundedSizeKFifo → Cell → Cell
next_of q c = (q.segments c.value).next

-- `head_old.value()->deleted = true`
abbrev pub mark_deleted : ℕ → UnboundedSizeKFifo → UnboundedSizeKFifo
mark_deleted a q = record q {
  segments = update q.segments a (record (q.segments a) { deleted = true });
}

-- The two exchanges at the end of `advance_head`, after the tail was dealt with.
abbrev pub move_head : Cell → (head_next : Cell) → UnboundedSizeKFifo → UnboundedSizeKFifo
move_head head_old head_next q =
    let q' = mark_deleted head_old.value q in
    if same q'.head head_old
    then record q' { head = record { value = head_next.value; aba = next_aba head_old.aba } }
    else q'

unfoldable pub advance_head : Cell → UnboundedSizeKFifo → UnboundedSizeKFifo
advance_head head_old q =
    let head_current = q.head in
    let tail_current = q.tail in
    let tail_next = next_of q tail_current in
    let head_next = next_of q head_current in
    if not (same head_current head_old)
    then q
    else if head_current.value == tail_current.value
    then (if tail_next.value == 0
        then q
        else move_head head_old head_next (record q {
          tail = record { value = tail_next.value; aba = next_aba tail_current.aba };
        }))
    else move_head head_old head_next q

unfoldable pub advance_tail : Cell → UnboundedSizeKFifo → UnboundedSizeKFifo
advance_tail tail_old q =
    let next_ksegment = next_of q tail_old in
    let n = q.allocated in
    let linked = update q.segments n ksegment_new in
    if not (same q.tail tail_old)
    then q
    else if not (next_ksegment.value == 0)
    then record q {
      tail = record { value = next_ksegment.value; aba = next_aba next_ksegment.aba };
    }
    else record q {
      segments = update linked tail_old.value (record (linked tail_old.value) {
        next = record { value = n; aba = next_aba next_ksegment.aba };
      });
      allocated = n + 1;
      tail = record { value = n; aba = next_aba tail_old.aba };
    }

unfoldable pub find_index : (segment random : ℕ) → Bool → UnboundedSizeKFifo → Option (ℕ × Cell)
find_index segment random empty q = search (q.segments segment).items q.k random empty

-- The state with one slot written.
abbrev pub with_item : UnboundedSizeKFifo → (segment index : ℕ) → Cell → UnboundedSizeKFifo
with_item q segment index c =
    let s = q.segments segment in
    record q { segments = update q.segments segment (record s { items = update s.items index c }) }

-- `segment->items[index]->cas(expected, newcp)`
abbrev pub cas_item :
    (segment index : ℕ) → Cell → Cell → UnboundedSizeKFifo → Bool × UnboundedSizeKFifo
cas_item segment index expected newcp q =
    if same ((q.segments segment).items index) expected
    then (true, with_item q segment index newcp)
    else (false, q)

-- Taking the item back; the commit has failed if the exchange succeeds.
abbrev pub take_back : (segment index : ℕ) → Cell → UnboundedSizeKFifo → Bool × UnboundedSizeKFifo
take_back segment index new_item q =
    let (won, q') = cas_item segment index new_item zero_cell q in (not won, q')

unfoldable pub committed :
    Cell → Cell → (item_index : ℕ) → UnboundedSizeKFifo → Bool × UnboundedSizeKFifo
committed tail_old new_item item_index q =
    let s = q.segments tail_old.value in
    let head_current = q.head in
    let head_new : Cell = record { value = head_current.value; aba = next_aba head_current.aba } in
    if not (same (s.items item_index) new_item)
    then (true, q)
    else if s.deleted
    then take_back tail_old.value item_index new_item q
    else if tail_old.value == head_current.value
    then (if same q.head head_current
        then (true, record q { head = head_new })
        else take_back tail_old.value item_index new_item q)
    else if not s.deleted
    then (true, q)
    else take_back tail_old.value item_index new_item q

-- A round of `dequeue`: the item, or `none` for false.
unfoldable pub dequeue_round :
    (random : ℕ) → UnboundedSizeKFifo → Round UnboundedSizeKFifo (Option ℕ)
dequeue_round random q =
    let head_old = q.head in
    let tail_old = q.tail in
    elim (find_index head_old.value random false q) [
      | some (index, old_item) ↦
          let q' = if head_old.value == tail_old.value then advance_tail tail_old q else q in
          let (won, q'') = cas_item head_old.value index old_item (emptied old_item) q' in
          if not (same head_old q.head)
          then again q
          else if won
          then returns (some old_item.value) q''
          else again q''
      | none ↦
          if not (same head_old q.head)
          then again q
          else if head_old.value == tail_old.value
          then returns none q
          else again (advance_head head_old q)
    ]

-- A round of `enqueue`; it returns true.
unfoldable pub enqueue_round :
    (item random : ℕ) → UnboundedSizeKFifo → Round UnboundedSizeKFifo Bool
enqueue_round item random q =
    let tail_old = q.tail in
    elim (find_index tail_old.value random true q) [
      | some (index, old_item) ↦
          let newcp = filled item old_item in
          let (won, q') = cas_item tail_old.value index old_item newcp q in
          let (done, q'') = committed tail_old newcp index q' in
          if not (same tail_old q.tail)
          then again q
          else if not won
          then again q'
          else if done
          then returns true q''
          else again q''
      | none ↦ again (if same tail_old q.tail then advance_tail tail_old q else q)
    ]

-- How a call ends.
pub data Exit (A : Type 0) : Type 0 where
  done : A → UnboundedSizeKFifo → Exit A
  out_of_fuel : Exit A
  aborted : Exit A

unfoldable pub dequeue : (rand : ℕ → ℕ) → (fuel : ℕ) → UnboundedSizeKFifo → Exit (Option ℕ)
dequeue rand zero q = out_of_fuel
dequeue rand (suc fuel) q = elim (dequeue_round (rand fuel) q) [
  | returns r q' ↦ done r q'
  | again q' ↦ dequeue rand fuel q'
]

unfoldable pub enqueue_loop : (rand : ℕ → ℕ) → (fuel item : ℕ) → UnboundedSizeKFifo → Exit Bool
enqueue_loop rand zero item q = out_of_fuel
enqueue_loop rand (suc fuel) item q = elim (enqueue_round item (rand fuel) q) [
  | returns r q' ↦ done r q'
  | again q' ↦ enqueue_loop rand fuel item q'
]

-- `enqueue` of NULL aborts the program.
unfoldable pub enqueue : (rand : ℕ → ℕ) → (fuel item : ℕ) → UnboundedSizeKFifo → Exit Bool
enqueue rand fuel item q = if item == 0 then aborted else enqueue_loop rand fuel item q
