-- ===== src/DataStructures/FlatCombiningQueue.antt =====
-- src/datastructures/flatcombining_queue.h: each thread announces its operation in its own slot, and
-- the thread that gets the lock serves all slots, on the queue of single_list.h. One round of a
-- waiting thread, with the pass of a thread that has the lock, runs without interference here. Items
-- are uint64_t, and `(T)NULL` is 0.
pub mod Serve
pub mod Quiescent
mod Examples
use scal.Prelude.{
  ℕ, zero, suc, Bool, true, false, List, [], ◌∷◌, ◌==◌, if◌then◌else◌, set, get_or, replicate,
  Option, none, some,
}
use scal.DataStructures.SingleList.{
  SingleList, new_list, is_empty, enqueue as list_enqueue, dequeue as list_dequeue,
}

pub data Opcode : Type 0 where
  done : Opcode
  enqueue_op : Opcode
  dequeue_op : Opcode

pub record Operation : Type 0 where
  pub opcode : Opcode
  pub data_ : ℕ

pub record FlatCombiningQueue : Type 0 where
  pub operations : List Operation
  pub queue : SingleList
  pub global_lock : Bool

-- `scal::get` returns zeroed memory, which is opcode `Done`.
abbrev pub idle : Operation
idle = record { opcode = done; data_ = 0 }

-- `FlatCombiningQueue::FlatCombiningQueue`
unfoldable pub new_queue : ℕ → FlatCombiningQueue
new_queue num_ops = record {
  operations = replicate num_ops idle;
  queue = new_list;
  global_lock = false;
}

unfoldable pub set_op : ℕ → Opcode → ℕ → FlatCombiningQueue → FlatCombiningQueue
set_op index code item q = record q {
  operations = set q.operations index (record { opcode = code; data_ = item });
}

-- The body of the loop of `scan_combine_apply`, at one slot.
unfoldable pub apply : Operation → SingleList → Operation × SingleList
apply op queue = elim op.opcode [
  | done ↦ (op, queue)
  | enqueue_op ↦ (idle, (list_enqueue op.data_ queue).1)
  | dequeue_op ↦
      if is_empty queue
      then (idle, queue)
      else (let (answer, queue') = list_dequeue queue in
          (record { opcode = done; data_ = answer.1 }, queue'))
]

-- The slots, in the order of their indices.
unfoldable pub scan : List Operation → SingleList → List Operation × SingleList
scan [] queue = ([], queue)
scan (op ∷ ops) queue =
    let (op', queue') = apply op queue in
    let (ops', queue'') = scan ops queue' in (op' ∷ ops', queue'')

unfoldable pub scan_combine_apply : FlatCombiningQueue → FlatCombiningQueue
scan_combine_apply q =
    let (ops, queue) = scan q.operations q.queue in record q { operations = ops; queue = queue }

abbrev pub is_done : Opcode → Bool
is_done done = true
is_done enqueue_op = false
is_done dequeue_op = false

-- One round of the loop of `enqueue` and of `dequeue`, and whether the loop ends.
unfoldable pub wait_round : ℕ → FlatCombiningQueue → Bool × FlatCombiningQueue
wait_round thread_id q =
    if q.global_lock then (is_done (get_or q.operations thread_id idle).opcode, q) else (
      true,
      record (scan_combine_apply (record q { global_lock = true })) { global_lock = false },
    )

-- The loop, on fuel; `none` when the fuel is spent.
unfoldable pub wait : ℕ → ℕ → FlatCombiningQueue → Option FlatCombiningQueue
wait zero thread_id q = none
wait (suc fuel) thread_id q =
    let (ends, q') = wait_round thread_id q in
    let rest = wait fuel thread_id q' in if ends then some q' else rest

unfoldable pub enqueue : ℕ → ℕ → ℕ → FlatCombiningQueue → Option (Bool × FlatCombiningQueue)
enqueue fuel thread_id item q = elim (wait fuel thread_id (set_op thread_id enqueue_op item q)) [
  | none ↦ none
  | some q' ↦ some (true, q')
]

-- The result, with the item that is written.
unfoldable pub dequeue : ℕ → ℕ → FlatCombiningQueue → Option ((Bool × ℕ) × FlatCombiningQueue)
dequeue fuel thread_id q = elim (wait fuel thread_id (set_op thread_id dequeue_op 0 q)) [
  | none ↦ none
  | some q' ↦
      (let item = (get_or q'.operations thread_id idle).data_ in
        let q'' = set_op thread_id done 0 q' in
        some ((if item == 0 then false else true, item), q''))
]
