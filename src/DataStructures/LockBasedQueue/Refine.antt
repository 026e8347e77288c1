-- ===== src/DataStructures/LockBasedQueue/Refine.antt =====
-- The operations on the linked list are those of a queue, and a call that waits leaves with the
-- first item there is.
use scal.Prelude.{
  ◌∙◌, ℕ, ◌<◌, ◌≡◌, List, [], ◌∷◌, ◌++◌, Option, none, some, false, Bool, arith, refl,
  if◌then◌else◌, ◌==◌, ap, Bool-cases, inl, inr,
}
use scal.DataStructures.SingleList.Linked.{Chain, Chain-ends, Chain-no_ends, link-Chain}
use scal.DataStructures.LockBasedQueue.{
  LockBasedQueue, new_queue, enqueue, take_first, dequeue_default, Action, enqueued, dequeued,
  perform, Wakeup, Outcome, returned, waiting, dequeue_blocking, dequeue_timed, dequeue,
}

-- The queue q stands for xs, oldest item first, and dequeues in the given mode.
pub record Represents (q : LockBasedQueue) (mode : ℕ) (xs : List ℕ) : Type 0 where
  pub linked : Chain q.heap q.head q.tail xs
  pub room : q.tail < q.allocated
  pub mode_is : q.dequeue_mode ≡ mode

abbrev pub fifo_take : List ℕ → Option ℕ × List ℕ
fifo_take [] = (none, [])
fifo_take (x ∷ xs) = (some x, xs)

abbrev pub fifo_perform : List Action → List ℕ → List ℕ
fifo_perform [] xs = xs
fifo_perform (enqueued x ∷ actions) xs = fifo_perform actions (xs ++ x ∷ [])
fifo_perform (dequeued ∷ actions) xs = fifo_perform actions (fifo_take xs).1

-- A call that may give up at a wake-up, as `gives_up` says: it takes the oldest item as soon as it
-- looks at a queue that is not empty, and waits at an empty one.
abbrev pub fifo_wait : (gives_up : Wakeup → Bool) → List Wakeup → List ℕ → Outcome × List ℕ
fifo_wait gives_up ws (x ∷ xs) = (returned (some x), xs)
fifo_wait gives_up [] [] = (waiting, [])
fifo_wait gives_up (w ∷ ws) [] =
    let xs = fifo_perform w.actions [] in
    let rest = fifo_wait gives_up ws xs in if gives_up w then (returned none, xs) else rest

-- What a dequeue in a mode comes to.
abbrev pub fifo_dequeue : ℕ → List Wakeup → List ℕ → Outcome × List ℕ
fifo_dequeue mode ws xs =
    if mode == 1
    then fifo_wait (λ _. false) ws xs
    else if mode == 2
    then fifo_wait (λ w. w.timed_out) ws xs
    else (returned (fifo_take xs).0, (fifo_take xs).1)

-- The outcome, and what the queue stands for then.
abbrev pub Agrees : ℕ → Outcome × LockBasedQueue → Outcome × List ℕ → Type 0
Agrees mode r s = (r.0 ≡ s.0) × Represents r.1 mode s.1

pub new_queue-Represents : (mode timeout : ℕ) → Represents (new_queue mode timeout) mode []
unfolding new_queue
new_queue-Represents mode timeout = record { linked = refl; room = omega arith; mode_is = refl }

enqueue-Represents :
    (x mode : ℕ) (q : LockBasedQueue) (xs : List ℕ)
    → Represents q mode xs
    → Represents (enqueue x q) mode (xs ++ x ∷ [])
unfolding enqueue
enqueue-Represents x mode q xs r = record {
  linked = link-Chain q.heap q.head q.tail q.allocated x xs r.room r.linked;
  room = omega arith;
  mode_is = r.mode_is;
}

take_first-Represents :
    (mode : ℕ) (q : LockBasedQueue) (x : ℕ) (xs : List ℕ)
    → Represents q mode (x ∷ xs)
    → ((take_first q).0 ≡ some x) × Represents (take_first q).1 mode xs
unfolding take_first
take_first-Represents mode q x xs r =
    (ap some r.linked.1, record { linked = r.linked.2; room = r.room; mode_is = r.mode_is })

dequeue_default-Represents :
    (mode : ℕ) (q : LockBasedQueue) (xs : List ℕ)
    → Represents q mode xs
    → ((dequeue_default q).0 ≡ (fifo_take xs).0)
      × Represents (dequeue_default q).1 mode (fifo_take xs).1
unfolding dequeue_default
dequeue_default-Represents mode q [] r = rw (Chain-no_ends q.heap q.head q.tail r.linked) (refl, r)
dequeue_default-Represents mode q (x ∷ xs) r =
    rw (Chain-ends q.heap q.head q.tail x xs r.linked) (take_first-Represents mode q x xs r)

perform-Represents :
    (actions : List Action) (mode : ℕ) (q : LockBasedQueue) (xs : List ℕ)
    → Represents q mode xs
    → Represents (perform actions q) mode (fifo_perform actions xs)
unfolding perform
perform-Represents [] mode q xs r = r
perform-Represents (enqueued x ∷ actions) mode q xs r =
    perform-Represents actions mode (enqueue x q) (xs ++ x ∷ []) (enqueue-Represents x mode q xs r)
perform-Represents (dequeued ∷ actions) mode q xs r =
    perform-Represents actions mode (dequeue_default q).1 (fifo_take xs).1
      (dequeue_default-Represents mode q xs r).1

-- A call that finds an item returns it.
returns_first :
    (mode : ℕ) (q : LockBasedQueue) (x : ℕ) (xs : List ℕ)
    → Represents q mode (x ∷ xs)
    → Agrees mode (returned (take_first q).0, (take_first q).1) (returned (some x), xs)
returns_first mode q x xs r = let t = take_first-Represents mode q x xs r in (ap returned t.0, t.1)

dequeue_blocking-Agrees :
    (ws : List Wakeup) (mode : ℕ) (q : LockBasedQueue) (xs : List ℕ)
    → Represents q mode xs
    → Agrees mode (dequeue_blocking ws q) (fifo_wait (λ _. false) ws xs)
unfolding dequeue_blocking
dequeue_blocking-Agrees [] mode q [] r = rw (Chain-no_ends q.heap q.head q.tail r.linked) (refl, r)
dequeue_blocking-Agrees [] mode q (x ∷ xs) r =
    rw (Chain-ends q.heap q.head q.tail x xs r.linked) (returns_first mode q x xs r)
dequeue_blocking-Agrees (w ∷ ws) mode q [] r = rw (Chain-no_ends q.heap q.head q.tail r.linked) (
    dequeue_blocking-Agrees ws mode (perform w.actions q) (fifo_perform w.actions [])
      (perform-Represents w.actions mode q [] r))
dequeue_blocking-Agrees (w ∷ ws) mode q (x ∷ xs) r =
    rw (Chain-ends q.heap q.head q.tail x xs r.linked) (returns_first mode q x xs r)

dequeue_timed-Agrees :
    (ws : List Wakeup) (mode : ℕ) (q : LockBasedQueue) (xs : List ℕ)
    → Represents q mode xs
    → Agrees mode (dequeue_timed ws q) (fifo_wait (λ w. w.timed_out) ws xs)
unfolding dequeue_timed
dequeue_timed-Agrees [] mode q [] r = rw (Chain-no_ends q.heap q.head q.tail r.linked) (refl, r)
dequeue_timed-Agrees [] mode q (x ∷ xs) r =
    rw (Chain-ends q.heap q.head q.tail x xs r.linked) (returns_first mode q x xs r)
dequeue_timed-Agrees (w ∷ ws) mode q [] r =
    let acted = perform-Represents w.actions mode q [] r in
    rw (Chain-no_ends q.heap q.head q.tail r.linked) (elim (Bool-cases w.timed_out) [
      | inl late ↦ rw late (refl, acted)
      | inr early ↦
          rw early
            (dequeue_timed-Agrees ws mode (perform w.actions q) (fifo_perform w.actions []) acted)
    ])
dequeue_timed-Agrees (w ∷ ws) mode q (x ∷ xs) r =
    rw (Chain-ends q.heap q.head q.tail x xs r.linked) (returns_first mode q x xs r)

-- In each mode, with any waits and any operations of the other threads meanwhile, a dequeue comes to
-- what it comes to on a first-in first-out queue: by default the oldest item, or false at an empty
-- queue; if it waits, the oldest item of the first queue it finds that is not empty; and if its wait
-- times out, false.
pub dequeue-refines :
    (ws : List Wakeup) (mode : ℕ) (q : LockBasedQueue) (xs : List ℕ)
    → Represents q mode xs
    → Agrees mode (dequeue ws q) (fifo_dequeue mode ws xs)
unfolding dequeue
dequeue-refines ws mode q xs r = elim (Bool-cases (mode == 1)) [
  | inl one ↦ rw (one, same 1 ∙ one) (dequeue_blocking-Agrees ws mode q xs r)
  | inr other ↦ elim (Bool-cases (mode == 2)) [
    | inl two ↦ rw (other, same 1 ∙ other, two, same 2 ∙ two) (dequeue_timed-Agrees ws mode q xs r)
    | inr last ↦
        let d = dequeue_default-Represents mode q xs r in
        rw (other, same 1 ∙ other, last, same 2 ∙ last) (ap returned d.0, d.1)
  ]
]
  where
    same : (n : ℕ) → (q.dequeue_mode == n) ≡ (mode == n)
    same n = ap (λ m. m == n) r.mode_is

-- Whatever other threads do from a new queue on, it stands for the queue that their operations build.
pub perform-refines :
    (actions : List Action) (mode timeout : ℕ)
    → Represents (perform actions (new_queue mode timeout)) mode (fifo_perform actions [])
perform-refines actions mode timeout =
    perform-Represents actions mode (new_queue mode timeout) [] (new_queue-Represents mode timeout)
