-- ===== src/DataStructures/LockBasedQueue.antt =====
-- src/datastructures/lockbased_queue.h: a linked list under one mutex, with a condition variable for
-- consumers that wait. What a thread does while it holds the mutex is one function. A wait releases
-- the mutex: what happens until it returns is an argument, the operations of the other threads with
-- the return code. The calls of pthreads, but the timed wait, return 0. Memory is as in
-- single_list.h's model, and the nodes are linked alike; items are uint64_t.
pub mod Refine
pub mod Deadline
mod Examples
use scal.Prelude.{
  ℕ, ◌+◌, ◌*◌, ◌/◌, ◌%◌, ◌^◌, Bool, true, false, List, [], ◌∷◌, Option, none, some, ◌==◌, leb,
  if◌then◌else◌,
}
use scal.DataStructures.SingleList.Linked.{Node, link}

pub record LockBasedQueue : Type 0 where
  pub heap : ℕ → Node
  pub allocated : ℕ
  pub head : ℕ
  pub tail : ℕ
  pub dequeue_mode : ℕ
  pub dequeue_timeout : ℕ

-- `LockBasedQueue::LockBasedQueue`
unfoldable pub new_queue : ℕ → ℕ → LockBasedQueue
new_queue mode timeout = record {
  heap = λ _. record { next = 0; value = 0 };
  allocated = 2;
  head = 1;
  tail = 1;
  dequeue_mode = mode;
  dequeue_timeout = timeout;
}

-- It always returns true.
unfoldable pub enqueue : ℕ → LockBasedQueue → LockBasedQueue
enqueue item q =
    let n = q.allocated in
    record q { heap = link q.heap q.tail n item; allocated = n + 1; tail = n }

-- `*item = head_->next->value; head_ = head_->next`
unfoldable pub take_first : LockBasedQueue → Option ℕ × LockBasedQueue
take_first q =
    let first = (q.heap q.head).next in (some (q.heap first).value, record q { head = first })

-- `none` is the result false, with no item written.
unfoldable pub dequeue_default : LockBasedQueue → Option ℕ × LockBasedQueue
dequeue_default q = if q.head == q.tail then (none, q) else take_first q

-- What another thread does with the mutex; other ways to dequeue end in the same two statements.
pub data Action : Type 0 where
  enqueued : (item : ℕ) → Action
  dequeued : Action

unfoldable pub perform : List Action → LockBasedQueue → LockBasedQueue
perform [] q = q
perform (enqueued x ∷ actions) q = perform actions (enqueue x q)
perform (dequeued ∷ actions) q = perform actions (dequeue_default q).1

-- How a wait ends: other threads have acted, and the timed wait returns ETIMEDOUT or 0.
pub record Wakeup : Type 0 where
  pub actions : List Action
  pub timed_out : Bool

-- What a call comes to: a result, or it still waits after the given waits.
pub data Outcome : Type 0 where
  returned : (item : Option ℕ) → Outcome
  waiting : Outcome

unfoldable pub dequeue_blocking : List Wakeup → LockBasedQueue → Outcome × LockBasedQueue
dequeue_blocking [] q =
    if q.head == q.tail
    then (waiting, q)
    else (let (item, q') = take_first q in (returned item, q'))
dequeue_blocking (w ∷ ws) q =
    let rest = dequeue_blocking ws (perform w.actions q) in
    if q.head == q.tail then rest else (let (item, q') = take_first q in (returned item, q'))

-- The wait loop of `dequeue_timeout`; the deadline is passed to the timed wait.
unfoldable pub dequeue_timed : List Wakeup → LockBasedQueue → Outcome × LockBasedQueue
dequeue_timed [] q =
    if q.head == q.tail
    then (waiting, q)
    else (let (item, q') = take_first q in (returned item, q'))
dequeue_timed (w ∷ ws) q =
    let q' = perform w.actions q in
    let rest = dequeue_timed ws q' in
    if q.head == q.tail
    then (if w.timed_out then (returned none, q') else rest)
    else (let (item, q'') = take_first q in (returned item, q''))

pub record Timespec : Type 0 where
  pub tv_sec : ℕ
  pub tv_nsec : ℕ

-- The deadline that `dequeue_timeout` computes from the time of day.
unfoldable pub deadline : (sec usec timeout_ms : ℕ) → Timespec
deadline sec usec timeout_ms =
    let tmp_nsec = (usec * 1000 + timeout_ms * 1000000) % 2 ^ 64 in
    if leb 1000000000 tmp_nsec
    then record { tv_sec = sec + tmp_nsec / 1000000000; tv_nsec = tmp_nsec % 1000000000 }
    else record { tv_sec = sec; tv_nsec = tmp_nsec }

unfoldable pub dequeue : List Wakeup → LockBasedQueue → Outcome × LockBasedQueue
dequeue ws q =
    if q.dequeue_mode == 1
    then dequeue_blocking ws q
    else if q.dequeue_mode == 2
    then dequeue_timed ws q
    else (let (item, q') = dequeue_default q in (returned item, q'))
