-- ===== src/DataStructures/SingleList.antt =====
-- src/datastructures/single_list.h: the queue of one thread, a linked list that begins with a
-- sentinel. Memory is a function from addresses to nodes. An allocation returns the least number
-- that was not handed out yet, zeroed; the allocator's own addresses grow likewise until it wraps
-- around. Items are uint64_t, so `(T)NULL` is 0.
pub mod Linked
pub mod Refine
mod Examples
use Linked.{Node, link}
use scal.Prelude.{ℕ, ◌+◌, Bool, true, false, List, [], ◌∷◌, ◌++◌, ◌==◌, if◌then◌else◌}

pub record SingleList : Type 0 where
  pub heap : ℕ → Node
  pub allocated : ℕ  -- addresses below are in use
  pub head : ℕ
  pub tail : ℕ

-- What an operation returns: its result, and the item it has written.
abbrev pub Answer : Type 0
Answer = Bool × ℕ

-- `SingleList::SingleList`
unfoldable pub new_list : SingleList
new_list = record { heap = λ _. record { next = 0; value = 0 }; allocated = 2; head = 1; tail = 1 }

unfoldable pub is_empty : SingleList → Bool
is_empty q = if q.head == q.tail then true else false

unfoldable pub enqueue : ℕ → SingleList → Answer × SingleList
enqueue item q =
    let n = q.allocated in
    ((true, 0), record q { heap = link q.heap q.tail n item; allocated = n + 1; tail = n })

unfoldable pub dequeue : SingleList → Answer × SingleList
dequeue q =
    if q.head == q.tail
    then ((false, 0), q)
    else (let first = (q.heap q.head).next in
        ((true, (q.heap first).value), record q { head = first }))

-- A call of a client.
pub data Call : Type 0 where
  call_enqueue : (item : ℕ) → Call
  call_dequeue : Call
  call_is_empty : Call

unfoldable pub run : List Call → SingleList → List Answer × SingleList
run [] q = ([], q)
run (call_enqueue x ∷ calls) q =
    let (answer, q') = enqueue x q in let (answers, end) = run calls q' in (answer ∷ answers, end)
run (call_dequeue ∷ calls) q =
    let (answer, q') = dequeue q in let (answers, end) = run calls q' in (answer ∷ answers, end)
run (call_is_empty ∷ calls) q = let (answers, end) = run calls q in ((is_empty q, 0) ∷ answers, end)
