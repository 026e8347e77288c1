-- ===== src/DataStructures/RandomDequeueQueue/Examples.antt =====
-- A queue of three items, and the theorems about it.
use scal.Prelude.{ℕ, ◌≡◌, none, some, [], ◌∷◌, refl, arith, same, next_aba, Option}
use scal.DataStructures.RandomDequeueQueue.{
  RandomDequeueQueue, new_queue, enqueued, still_trying, aborted, enqueue, enqueue_loop,
  enqueue_round, Progress, returned, again, out_of_fuel, dequeue, dequeue_loop, dequeue_round, draw,
  skip_deleted, walk, take_node,
}
use scal.DataStructures.RandomDequeueQueue.Chain.{IsQueue}
use scal.DataStructures.RandomDequeueQueue.Takes.{Answers}
use scal.DataStructures.RandomDequeueQueue.Quasi.{rd_dequeue-Answers}
use scal.DataStructures.RandomDequeueQueue.Enqueue.{Adds, rd_enqueue-Adds}

-- A quasi-factor of 2, and one retry.
new_queue-IsQueue : IsQueue (new_queue 2 1) []
unfolding new_queue
new_queue-IsQueue = record { linked = refl; tail_is_last = refl; room = omega arith }

abbrev put : ℕ → RandomDequeueQueue → RandomDequeueQueue
put item q = elim (enqueue 1 item q) [ enqueued q' ↦ q' | still_trying ↦ q | aborted ↦ q ]

abbrev three_items : RandomDequeueQueue
three_items = put 30 (put 20 (put 10 (new_queue 2 1)))

abbrev item_of : Progress → Option ℕ
item_of r = elim r [ returned item q ↦ item | again retries q ↦ none | out_of_fuel ↦ none ]

abbrev queue_of : Progress → RandomDequeueQueue
queue_of r = elim r [ returned item q ↦ q | again retries q ↦ q | out_of_fuel ↦ new_queue 2 1 ]

-- An odd number draws the second item.
takes_second : item_of (dequeue (λ _. 5) 3 three_items) ≡ some 20
unfolding dequeue dequeue_loop dequeue_round draw skip_deleted walk take_node enqueue enqueue_loop
    enqueue_round new_queue same next_aba
takes_second = refl

-- Drawn again, the second item is deleted; without a retry left the first one is taken.
takes_first : item_of (dequeue (λ _. 5) 3 (queue_of (dequeue (λ _. 5) 3 three_items))) ≡ some 10
unfolding dequeue dequeue_loop dequeue_round draw skip_deleted walk take_node enqueue enqueue_loop
    enqueue_round new_queue same next_aba
takes_first = refl

three_items-IsQueue : IsQueue three_items (2 ∷ 3 ∷ 4 ∷ [])
unfolding enqueue enqueue_loop enqueue_round new_queue same next_aba
three_items-IsQueue = record {
  linked = (refl, omega arith, (refl, omega arith, (refl, omega arith, refl)));
  tail_is_last = refl;
  room = omega arith;
}

factor_of_three : (three_items.quasi_factor ≡ 2) × (three_items.max_retries ≡ 1)
unfolding enqueue enqueue_loop enqueue_round new_queue same next_aba
factor_of_three = (refl, refl)

rd_dequeue-Answers_example :
    Answers three_items (2 ∷ 3 ∷ 4 ∷ []) (dequeue (λ fuel. fuel) 3 three_items)
rd_dequeue-Answers_example =
    rd_dequeue-Answers (λ fuel. fuel) 3 three_items (2 ∷ 3 ∷ 4 ∷ []) three_items-IsQueue
      (omega (arith, factor_of_three.0)) (omega (arith, factor_of_three.1))

rd_enqueue-Adds_example :
    ((q' : RandomDequeueQueue) × (enqueue 1 40 three_items ≡ enqueued q')
      × Adds three_items (2 ∷ 3 ∷ 4 ∷ []) 40 q')
    × (enqueue 1 0 three_items ≡ aborted)
rd_enqueue-Adds_example =
    rd_enqueue-Adds 0 40 three_items (2 ∷ 3 ∷ 4 ∷ []) three_items-IsQueue (λ e. omega arith)
