-- ===== src/DataStructures/RandomDequeueQueue/Quasi.antt =====
-- The bound on the disorder: what a dequeue takes when no other thread acts.
use scal.Prelude.{
  ℕ, zero, suc, ◌+◌, ◌<◌, ◌≤◌, ◌≡◌, ◌≢◌, ◌⊎◌, false, List, [], ◌∷◌, arith, refl, sym, ap, ◌∙◌, inl,
  inr, length, ◌==◌, ℕ_discrete, false-true,
}
use scal.DataStructures.RandomDequeueQueue.{
  RandomDequeueQueue, again, top_while, reaches, skip_deleted, walk, take_node, draw, dequeue_round,
  dequeue_loop, dequeue,
}
use scal.DataStructures.RandomDequeueQueue.Chain.{Chain-le, IsQueue}
use scal.DataStructures.RandomDequeueQueue.Rounds.{Moved-refl, skip_deleted-SkipEnds, walk-in_range}
use scal.DataStructures.RandomDequeueQueue.Takes.{
  Answers, GoesOn, Answers-Moved, take_node-lem, draw-bound, dequeue_round-empty,
}

module _ (random retries : ℕ) (q : RandomDequeueQueue) (n : ℕ) (ns : List ℕ)
    (v : IsQueue q (n ∷ ns)) where
  inside : (q.head.value == q.tail.value) ≡ false
  inside = ground (arith, v.tail_is_last, v.linked.1, Chain-le q.nodes n ns v.linked.2)

  round_top :
      (q' : RandomDequeueQueue)
      → draw random retries q ≡ 0
      → skip_deleted q.allocated q.tail q.head n q ≡ top_while q'
      → dequeue_round random retries q ≡ again (suc retries) q'
  unfolding dequeue_round
  round_top q' d e = rw (inside, d, v.linked.0, e, dequeue_round) refl

  round_first :
      (q' : RandomDequeueQueue) (m : ℕ)
      → draw random retries q ≡ 0
      → skip_deleted q.allocated q.tail q.head n q ≡ reaches m q'
      → m ≢ 0
      → dequeue_round random retries q ≡ take_node (suc retries) m q'
  unfolding dequeue_round
  round_first q' m d e ne =
      let not_null : (m == 0) ≡ false = ground (arith, ne) in
      rw (inside, d, v.linked.0, e, not_null, dequeue_round) refl

  round_walk :
      draw random retries q ≢ 0
      → dequeue_round random retries q
        ≡ take_node (suc retries) (walk (draw random retries q) n q) q
  unfolding dequeue_round
  round_walk ne =
      let drawn : (draw random retries q == 0) ≡ false = ground (arith, ne) in
      rw (inside, drawn, v.linked.0, dequeue_round) refl

  -- A round from a queue that has nodes.
  dequeue_round-lem :
      0 < q.quasi_factor
      → Answers q (n ∷ ns) (dequeue_round random retries q)
        ⊎ GoesOn retries q (n ∷ ns) (dequeue_round random retries q)
  dequeue_round-lem pos = elim (ℕ_discrete (draw random retries q) 0) [
    | yes zero_drawn ↦
        elim (skip_deleted-SkipEnds q.allocated q n ns v (omega (arith, v.room, v.linked.1))) [
          | inl (q', e, m) ↦ inr (q', [], round_top q' zero_drawn e, m, inr refl)
          | inr (q', k, rest, e, m, live) ↦
              rw (round_first q' k zero_drawn e (omega (arith, m.queue.linked.1)))
                (elim (take_node-lem retries q' (k ∷ rest) 0 k m.queue (rw m.quasi_factor pos)
                  refl) [
                    | inl (d, again_here) ↦
                        absurd (false-true (sym live ∙ ap (λ f. (f k).deleted) (sym m.nodes) ∙ d))
                    | inr answers ↦ inl (
                        Answers-Moved q (n ∷ ns) q' (k ∷ rest) (take_node (suc retries) k q') m
                          answers)
                  ])
        ]
    | no ne ↦ elim (draw-bound random retries q pos) [
      | inl zero_drawn ↦ absurd (ne zero_drawn)
      | inr (left, lt) ↦
          let (i, le, place) = walk-in_range (draw random retries q) q n ns v.linked.2 in
          rw (round_walk ne)
            (elim (take_node-lem retries q (n ∷ ns) i (walk (draw random retries q) n q) v
              (omega (arith, le, lt)) place) [
                | inl (d, again_here) ↦
                    inr (q, n ∷ ns, again_here, Moved-refl q (n ∷ ns) v, inl left)
                | inr answers ↦ inl answers
              ])
    ]
  ]

-- As many rounds as there are retries, and two more; one is enough for a queue without nodes.
Enough : (fuel retries max_retries : ℕ) → List ℕ → Type 0
Enough fuel retries max_retries ns =
    (0 < fuel) × ((ns ≡ []) ⊎ ((retries ≤ max_retries) × (max_retries + 1 < fuel + retries)))

dequeue_loop-Answers :
    (rand : ℕ → ℕ) (fuel retries : ℕ) (q : RandomDequeueQueue) (ns : List ℕ)
    → IsQueue q ns
    → 0 < q.quasi_factor
    → Enough fuel retries q.max_retries ns
    → Answers q ns (dequeue_loop rand fuel retries q)
unfolding dequeue_loop Enough
dequeue_loop-Answers rand zero retries q ns v pos enough = absurd (omega (arith, enough.0))
dequeue_loop-Answers rand (suc fuel) retries q [] v pos enough =
    rw (dequeue_round-empty (rand fuel) retries q v, dequeue_loop)
      (inl (q, refl, Moved-refl q [] v))
dequeue_loop-Answers rand (suc fuel) retries q (n ∷ ns) v pos (some_fuel, inl e) =
    absurd (omega (arith, ap length e))
dequeue_loop-Answers rand (suc fuel) retries q (n ∷ ns) v pos (some_fuel, inr (le, lt)) =
    elim (dequeue_round-lem (rand fuel) retries q n ns v pos) [
      | inl (inl (q', e, m)) ↦ rw (e, dequeue_loop) (inl (q', refl, m))
      | inl (inr (x, q', e, t)) ↦ rw (e, dequeue_loop) (inr (x, q', refl, t))
      | inr (q', rest, e, m, left) ↦
          rw (e, dequeue_loop)
            (Answers-Moved q (n ∷ ns) q' rest (dequeue_loop rand fuel (suc retries) q') m (
              dequeue_loop-Answers rand fuel (suc retries) q' rest m.queue (rw m.quasi_factor pos) (
                rw m.max_retries (elim left [
                  | inl more ↦
                      (omega (arith, lt, more), inr (omega (arith, more), omega (arith, lt)))
                  | inr none_left ↦ (omega (arith, lt, le), inl none_left)
                ]))))
    ]

-- From a queue at rest with nodes ns behind the head, and a quasi-factor that is not 0, `max_retries`
-- + 2 rounds are enough for a dequeue, whatever numbers are drawn: either it takes and marks one of
-- the first `quasi_factor` nodes that remain when deleted nodes at the head are passed, one that was
-- not deleted, or it answers false and all nodes were deleted.
pub rd_dequeue-Answers :
    (rand : ℕ → ℕ) (fuel : ℕ) (q : RandomDequeueQueue) (ns : List ℕ)
    → IsQueue q ns
    → 0 < q.quasi_factor
    → q.max_retries + 1 < fuel
    → Answers q ns (dequeue rand fuel q)
unfolding dequeue Enough
rd_dequeue-Answers rand fuel q ns v pos lt =
    dequeue_loop-Answers rand fuel 0 q ns v pos
      (omega (arith, lt), inr (omega arith, omega (arith, lt)))
