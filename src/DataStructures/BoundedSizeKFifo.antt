-- ===== src/DataStructures/BoundedSizeKFifo.antt =====
-- src/datastructures/boundedsize_kfifo.h: the k-FIFO queue over a fixed array of segments of k
-- slots. Each function is run by one thread without interference, with every test and exchange of
-- the source. `rand` gives the pseudorandom number of each round of a loop, for any numbers at all.
-- The unbounded loops of `enqueue` and `dequeue` take fuel, and say so when it runs out.
pub mod Segment
pub mod Commit
pub mod Operations
pub mod Full
mod Examples
use scal.Prelude.{
  ℕ, zero, suc, ◌+◌, ◌*◌, ◌%◌, ◌^◌, Bool, true, false, ◌&&◌, ◌||◌, Option, none, some, ltb, leb,
  ◌==◌, if◌then◌else◌, update, Cell, same, next_aba, not, for_from,
}

pub record KFifo : Type 0 where
  pub k : ℕ
  pub queue_size : ℕ
  pub queue : ℕ → Cell
  pub head : Cell
  pub tail : Cell

abbrev zero_cell : Cell
zero_cell = record { value = 0; aba = 0 }

unfoldable pub new : ℕ → ℕ → KFifo
new k num_segments = record {
  k = k;
  queue_size = k * num_segments % 2 ^ 64;
  queue = λ _. zero_cell;
  head = zero_cell;
  tail = zero_cell;
}

-- The slot of round i of `find_index`, and what the round does with it.
abbrev pub slot : KFifo → ℕ → ℕ → ℕ → ℕ
slot q start random i = (start + (random % q.k + i) % q.k) % 2 ^ 64 % q.queue_size

-- `(empty && value == NULL) || (!empty && value != NULL)`
abbrev pub wanted : Bool → Cell → Bool
wanted empty c = (empty && c.value == 0) || (not empty && not (c.value == 0))

abbrev pub probe : KFifo → ℕ → Bool → ℕ → ℕ → Option (ℕ × Cell)
probe q start empty random i =
    let index = slot q start random i in
    let old = q.queue index in if wanted empty old then some (index, old) else none

-- The index and the word found, or `none` for kNoIndexFound.
unfoldable pub find_index : KFifo → ℕ → ℕ → Bool → Option (ℕ × Cell)
find_index q random start empty = for_from (probe q start empty random) 0 q.k

-- A compare-and-swap that is given the new word.
abbrev pub advanced : KFifo → Cell → Cell
advanced q old = record { value = (old.value + q.k) % 2 ^ 64; aba = next_aba old.aba }

unfoldable pub advance_head : KFifo → Cell → KFifo
advance_head q head_old =
    if same q.head head_old then record q { head = advanced q head_old } else q

unfoldable pub advance_tail : KFifo → Cell → KFifo
advance_tail q tail_old =
    if same q.tail tail_old then record q { tail = advanced q tail_old } else q

unfoldable pub queue_full : KFifo → ℕ → ℕ → Bool
queue_full q head_old tail_old =
    head_old == q.head.value && (tail_old + q.k) % 2 ^ 64 % q.queue_size == head_old

abbrev pub taken_slot : KFifo → ℕ → ℕ → Option Bool
taken_slot q head_old i =
    if (q.queue ((head_old + i) % 2 ^ 64 % q.queue_size)).value == 0 then none else some true

unfoldable pub segment_not_empty : KFifo → ℕ → Bool
segment_not_empty q head_old = elim (for_from (taken_slot q head_old) 0 q.k) [
  | some b ↦ b
  | none ↦ false
]

unfoldable pub in_valid_region : ℕ → ℕ → ℕ → Bool
in_valid_region tail_old tail_current head_current =
    if ltb tail_current head_current
    then ltb head_current tail_old || leb tail_old tail_current
    else (ltb head_current tail_old && leb tail_old tail_current)

unfoldable pub not_in_valid_region : ℕ → ℕ → ℕ → Bool
not_in_valid_region tail_old tail_current head_current =
    if ltb tail_current head_current
    then ltb tail_old tail_current && ltb head_current tail_old
    else (ltb tail_old tail_current || ltb head_current tail_old)

-- `queue_[index]->cas(expected, newcp)`
abbrev pub cas_slot : KFifo → ℕ → Cell → Cell → Bool × KFifo
cas_slot q index expected newcp =
    if same (q.queue index) expected
    then (true, record q { queue = update q.queue index newcp })
    else (false, q)

abbrev pub emptied : Cell → Cell
emptied c = record { value = 0; aba = next_aba c.aba }

-- Taking the item back. The commit has failed if the exchange succeeds.
abbrev pub take_back : KFifo → Cell → ℕ → Bool × KFifo
take_back q new_item index =
    let (won, q') = cas_slot q index new_item (emptied new_item) in (not won, q')

unfoldable pub committed : KFifo → ℕ → Cell → ℕ → Bool × KFifo
unfolding in_valid_region not_in_valid_region
committed q tail_old new_item index =
    if not ((q.queue index).value == new_item.value)
    then (true, q)
    else if in_valid_region tail_old q.tail.value q.head.value
    then (true, q)
    else if not_in_valid_region tail_old q.tail.value q.head.value
    then take_back q new_item index
    else if same q.head q.head
    then (true, record q { head = record { value = q.head.value; aba = next_aba q.head.aba } })
    else take_back q new_item index

-- What one round of a `while (true)` does: return, or go round again.
pub data Round (A : Type 0) : Type 0 where
  returns : A → KFifo → Round A
  again : KFifo → Round A

-- One round of `dequeue`; the result is the item, or `none` for false.
unfoldable pub dequeue_round : ℕ → KFifo → Round (Option ℕ)
dequeue_round random q =
    let head_old = q.head in
    let tail_old = q.tail in
    elim (find_index q random head_old.value false) [
      | some (index, old) ↦
          let q' = if head_old.value == tail_old.value then advance_tail q tail_old else q in
          let (won, q'') = cas_slot q' index old (emptied old) in
          if won then returns (some old.value) q'' else again q''
      | none ↦
          if head_old.value == tail_old.value && tail_old.value == q.tail.value
          then returns none q
          else again (advance_head q head_old)
    ]

-- One round of `enqueue`; the result is what it returns.
unfoldable pub enqueue_round : ℕ → ℕ → KFifo → Round Bool
enqueue_round item random q =
    let tail_old = q.tail in
    let head_old = q.head in
    elim (find_index q random tail_old.value true) [
      | some (index, old) ↦
          let newcp : Cell = record { value = item; aba = next_aba old.aba } in
          let (won, q') = cas_slot q index old newcp in
          let (done, q'') = committed q' tail_old.value newcp index in
          if won then (if done then returns true q'' else again q'') else again q'
      | none ↦
          if queue_full q head_old.value tail_old.value
          then (if segment_not_empty q head_old.value && head_old.value == q.head.value
              then returns false q
              else again (advance_tail (advance_head q head_old) tail_old))
          else again (advance_tail q tail_old)
    ]

-- How a call ends.
pub data Exit (A : Type 0) : Type 0 where
  done : A → KFifo → Exit A
  out_of_fuel : Exit A
  aborted : Exit A

unfoldable pub dequeue : (rand : ℕ → ℕ) → ℕ → KFifo → Exit (Option ℕ)
dequeue rand zero q = out_of_fuel
dequeue rand (suc fuel) q = elim (dequeue_round (rand fuel) q) [
  | returns r q' ↦ done r q'
  | again q' ↦ dequeue rand fuel q'
]

unfoldable pub enqueue_loop : (rand : ℕ → ℕ) → ℕ → ℕ → KFifo → Exit Bool
enqueue_loop rand item zero q = out_of_fuel
enqueue_loop rand item (suc fuel) q = elim (enqueue_round item (rand fuel) q) [
  | returns r q' ↦ done r q'
  | again q' ↦ enqueue_loop rand item fuel q'
]

-- `enqueue` of NULL aborts the program.
unfoldable pub enqueue : (rand : ℕ → ℕ) → ℕ → ℕ → KFifo → Exit Bool
unfolding enqueue_loop
enqueue rand item fuel q = if item == 0 then aborted else enqueue_loop rand item fuel q
