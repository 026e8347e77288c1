-- ===== src/DataStructures/RandomDequeueQueue.antt =====
-- src/datastructures/random_dequeue_queue.h: a linked queue whose dequeue marks one of the first
-- `quasi_factor` nodes as deleted; the head moves over deleted nodes later. Each function is run by one
-- thread without interference, with every test and exchange of the source; a test of a word that was
-- just loaded is left out where no exchange stands between. Memory is a function from addresses to
-- nodes, an allocation returns the least address that was not handed out, and 0 is NULL. What
-- `pseudorand` returns is an argument, and so is `max_retries`, which the constructor does not set.
-- Items are uint64_t.
pub mod Chain
pub mod Rounds
pub mod Takes
pub mod Quasi
pub mod Enqueue
mod Examples
use scal.Prelude.{
  ℕ, zero, suc, ◌+◌, ◌%◌, Bool, true, false, not, ◌&&◌, ◌||◌, Option, none, some, ◌==◌, leb,
  if◌then◌else◌, update, Cell, same, next_aba,
}

pub record Node : Type 0 where
  pub next : Cell
  pub value : ℕ
  pub deleted : Bool

pub record RandomDequeueQueue : Type 0 where
  pub nodes : ℕ → Node
  pub allocated : ℕ
  pub quasi_factor : ℕ
  pub max_retries : ℕ
  pub head : Cell
  pub tail : Cell

abbrev pub new_node : Node
new_node = record { next = record { value = 0; aba = 0 }; value = 0; deleted = false }

-- `RandomDequeueQueue::RandomDequeueQueue`, with what `max_retries_` happens to hold.
unfoldable pub new_queue : (quasi_factor max_retries : ℕ) → RandomDequeueQueue
new_queue quasi_factor max_retries = record {
  nodes = λ _. new_node;
  allocated = 2;
  quasi_factor = quasi_factor;
  max_retries = max_retries;
  head = record { value = 1; aba = 0 };
  tail = record { value = 1; aba = 0 };
}

-- A word with the next counter.
abbrev pub after_cell : ℕ → Cell → Cell
after_cell node old = record { value = node; aba = next_aba old.aba }

abbrev pub next_of : RandomDequeueQueue → ℕ → Cell
next_of q node = (q.nodes node).next

abbrev pub cas_tail : (tail_old tail_new : Cell) → RandomDequeueQueue → RandomDequeueQueue
cas_tail tail_old tail_new q = if same q.tail tail_old then record q { tail = tail_new } else q

-- How a round or a call ends: with an item, or `none` for false; or it goes round again.
pub data Progress : Type 0 where
  returned : Option ℕ → RandomDequeueQueue → Progress
  again : (retries : ℕ) → RandomDequeueQueue → Progress
  out_of_fuel : Progress

-- A round of `enqueue`: whether the node was linked.
unfoldable pub enqueue_round : (node : ℕ) → RandomDequeueQueue → Bool × RandomDequeueQueue
enqueue_round node q =
    let tail_old = q.tail in
    let next = next_of q tail_old.value in
    let linked = record q {
      nodes =
          update q.nodes tail_old.value
            (record (q.nodes tail_old.value) { next = after_cell node next });
    } in
    if next.value == 0
    then (true, cas_tail tail_old (after_cell node tail_old) linked)
    else (false, cas_tail tail_old (after_cell next.value tail_old) q)

unfoldable pub enqueue_loop : (fuel node : ℕ) → RandomDequeueQueue → Option RandomDequeueQueue
enqueue_loop zero node q = none
enqueue_loop (suc fuel) node q =
    let (linked, q') = enqueue_round node q in
    let rest = enqueue_loop fuel node q' in if linked then some q' else rest

-- How an `enqueue` ends: it returns true, or the assertion aborts the program.
pub data Enqueued : Type 0 where
  enqueued : RandomDequeueQueue → Enqueued
  still_trying : Enqueued
  aborted : Enqueued

-- `assert(item != NULL)` comes first; `still_trying` when the fuel is spent.
unfoldable pub enqueue : (fuel item : ℕ) → RandomDequeueQueue → Enqueued
enqueue fuel item q =
    let node = q.allocated in
    let filled = record q {
      nodes = update q.nodes node (record new_node { value = item });
      allocated = node + 1;
    } in
    if item == 0
    then aborted
    else elim (enqueue_loop fuel node filled) [ some q' ↦ enqueued q' | none ↦ still_trying ]

-- How the loop over the deleted nodes at the head ends.
pub data Skip : Type 0 where
  top_while : RandomDequeueQueue → Skip
  reaches : (node : ℕ) → RandomDequeueQueue → Skip
  out_of_steps : Skip

unfoldable pub skip_deleted :
    (fuel : ℕ) (tail_old head_old : Cell) (node : ℕ) → RandomDequeueQueue → Skip
skip_deleted zero tail_old head_old node q = out_of_steps
skip_deleted (suc fuel) tail_old head_old node q =
    let head_new = after_cell node head_old in
    let q' = if same q.head head_old then record q { head = head_new } else q in
    let rest = skip_deleted fuel tail_old head_new (next_of q' node).value q' in
    if not (node == 0) && (q.nodes node).deleted
    then (if not (same q.head head_old) || node == tail_old.value then top_while q' else rest)
    else reaches node q

-- `for (i = 0; i < random_index && node->next.value() != NULL; ++i)`
unfoldable pub walk : (random_index node : ℕ) → RandomDequeueQueue → ℕ
walk zero node q = node
walk (suc random_index) node q =
    let next = (next_of q node).value in
    let rest = walk random_index next q in if next == 0 then node else rest

-- The test and the exchange of `deleted`.
unfoldable pub take_node : (retries node : ℕ) → RandomDequeueQueue → Progress
take_node retries node q =
    if (q.nodes node).deleted
    then again retries q
    else returned (some (q.nodes node).value)
        (record q { nodes = update q.nodes node (record (q.nodes node) { deleted = true }) })

-- The index that a round draws.
unfoldable pub draw : (random retries : ℕ) → RandomDequeueQueue → ℕ
draw random retries q = if leb q.max_retries retries then 0 else random % q.quasi_factor

-- A round of `dequeue`. The loop at the head has as much fuel as there are addresses.
unfoldable pub dequeue_round : (random retries : ℕ) → RandomDequeueQueue → Progress
dequeue_round random retries q =
    let head_old = q.head in
    let tail_old = q.tail in
    let next = next_of q head_old.value in
    let random_index = draw random retries q in
    if head_old.value == tail_old.value
    then (if next.value == 0
        then returned none q
        else again retries (cas_tail tail_old (after_cell next.value tail_old) q))
    else if random_index == 0
    then elim (skip_deleted q.allocated tail_old head_old next.value q) [
      | top_while q' ↦ again (suc retries) q'
      | reaches node q' ↦ if node == 0 then returned none q' else take_node (suc retries) node q'
      | out_of_steps ↦ out_of_fuel
    ]
    else take_node (suc retries) (walk random_index next.value q) q

unfoldable pub dequeue_loop : (rand : ℕ → ℕ) → (fuel retries : ℕ) → RandomDequeueQueue → Progress
dequeue_loop rand zero retries q = out_of_fuel
dequeue_loop rand (suc fuel) retries q = elim (dequeue_round (rand fuel) retries q) [
  | returned r q' ↦ returned r q'
  | again retries' q' ↦ dequeue_loop rand fuel retries' q'
  | out_of_fuel ↦ out_of_fuel
]

unfoldable pub dequeue : (rand : ℕ → ℕ) → (fuel : ℕ) → RandomDequeueQueue → Progress
dequeue rand fuel q = dequeue_loop rand fuel 0 q
