-- ===== src/DataStructures/RandomDequeueQueue/Enqueue.antt =====
-- What an enqueue adds when no other thread acts.
use scal.Prelude.{
  ℕ, suc, ◌+◌, ◌<◌, ◌≡◌, ◌≢◌, true, false, List, [], ◌∷◌, ◌++◌, arith, refl, sym, ap, ◌∙◌, subst,
  Cell, same_iff, ◌==◌, ==_iff, update, update_self, update_ne, ℕ_discrete,
}
use scal.DataStructures.RandomDequeueQueue.{
  Node, RandomDequeueQueue, new_node, after_cell, enqueue_round, enqueue_loop, enqueue, enqueued,
  aborted,
}
use scal.DataStructures.RandomDequeueQueue.Chain.{Chain, last, Chain-le, IsQueue}

-- A node m behind the last one.
Chain-append :
    (nodes nodes' : ℕ → Node) (m a : ℕ) (ns : List ℕ)
    → Chain nodes a ns
    → last a ns < m
    → (nodes' (last a ns)).next.value ≡ m
    → (nodes' m).next.value ≡ 0
    → ((k : ℕ) → k < last a ns → (nodes' k).next ≡ (nodes k).next)
    → Chain nodes' a (ns ++ (m ∷ []))
Chain-append nodes nodes' m a [] h lt e z f = (e, lt, z)
Chain-append nodes nodes' m a (n ∷ ns) (d, l, h) lt e z f =
    let le = Chain-le nodes n ns h in
    (
      ap (λ c. c.value) (f a (omega (arith, l, le))) ∙ d,
      l,
      Chain-append nodes nodes' m n ns h lt e z f,
    )

last-append : (m a : ℕ) (ns : List ℕ) → last a (ns ++ (m ∷ [])) ≡ m
last-append m a [] = refl
last-append m a (n ∷ ns) = last-append m n ns

-- One node with the item stands behind the others, which keep their items and marks.
pub record Adds (q : RandomDequeueQueue) (ns : List ℕ) (item : ℕ) (q' : RandomDequeueQueue)
    : Type 0 where
  pub queue : IsQueue q' (ns ++ (q.allocated ∷ []))
  pub value : (q'.nodes q.allocated).value ≡ item
  pub live : (q'.nodes q.allocated).deleted ≡ false
  pub values : (k : ℕ) → k < q.allocated → (q'.nodes k).value ≡ (q.nodes k).value
  pub marks : (k : ℕ) → k < q.allocated → (q'.nodes k).deleted ≡ (q.nodes k).deleted
  pub quasi_factor : q'.quasi_factor ≡ q.quasi_factor
  pub max_retries : q'.max_retries ≡ q.max_retries

module _ (q : RandomDequeueQueue) (ns : List ℕ) (item : ℕ) (v : IsQueue q ns) where
  abbrev t : ℕ
  t = q.tail.value

  abbrev m : ℕ
  m = q.allocated

  abbrev filled : ℕ → Node
  filled = update q.nodes m (record new_node { value = item })

  abbrev link_new : Node → Node
  link_new n = record n { next = after_cell m n.next }

  abbrev linked : ℕ → Node
  linked = update filled t (record (filled t) { next = after_cell m (filled t).next })

  abbrev result : RandomDequeueQueue
  result = record q { nodes = linked; allocated = m + 1; tail = after_cell m q.tail }

  filled_before : (k : ℕ) → k < m → filled k ≡ q.nodes k
  filled_before k lt = update_ne q.nodes m (record new_node { value = item }) k (omega (arith, lt))

  linked_new : linked m ≡ record new_node { value = item }
  linked_new =
      update_ne filled t (record (filled t) { next = after_cell m (filled t).next }) m
        (omega (arith, v.room))
      ∙ update_self q.nodes m (record new_node { value = item })

  linked_tail : linked t ≡ record (q.nodes t) { next = after_cell m (q.nodes t).next }
  linked_tail =
      update_self filled t (record (filled t) { next = after_cell m (filled t).next })
      ∙ ap link_new (filled_before t v.room)

  linked_before : (k : ℕ) → k < m → k ≢ t → linked k ≡ q.nodes k
  linked_before k lt ne =
      update_ne filled t (record (filled t) { next = after_cell m (filled t).next }) k
        (λ e. ne (sym e))
      ∙ filled_before k lt

  -- What a node keeps when its link is set.
  keeps {ℓ} :
      {A : Type ℓ} (f : Node → A)
      → ((n : Node) (c : Cell) → f (record n { next = c }) ≡ f n)
      → (k : ℕ) → k < m
      → f (linked k) ≡ f (q.nodes k)
  keeps f h k lt = elim (ℕ_discrete k t) [
    | yes e ↦
        subst (λ k. f (linked k) ≡ f (q.nodes k)) (sym e)
          (ap f linked_tail ∙ h (q.nodes t) (after_cell m (q.nodes t).next))
    | no ne ↦ ap f (linked_before k lt ne)
  ]

  no_next : (q.nodes t).next.value ≡ 0
  no_next = rw v.tail_is_last (ends q.nodes q.head.value ns v.linked)
    where
      ends :
          (nodes : ℕ → Node) (a : ℕ) (ms : List ℕ)
          → Chain nodes a ms
          → (nodes (last a ms)).next.value ≡ 0
      ends nodes a [] h = h
      ends nodes a (n ∷ ms) h = ends nodes n ms h.2

  result-Adds : Adds q ns item result
  result-Adds = record {
    queue = record {
      linked =
          Chain-append q.nodes linked m q.head.value ns v.linked
            (omega (arith, v.room, v.tail_is_last))
            (subst (λ l. (linked l).next.value ≡ m) v.tail_is_last
              (ap (λ n. n.next.value) linked_tail))
            (ap (λ n. n.next.value) linked_new)
            (λ k lt.
              ap (λ n. n.next)
                (linked_before k (omega (arith, lt, v.room, v.tail_is_last))
                  (omega (arith, lt, v.tail_is_last))));
      tail_is_last = sym (last-append m q.head.value ns);
      room = omega arith;
    };
    value = ap (λ n. n.value) linked_new;
    live = ap (λ n. n.deleted) linked_new;
    values = keeps (λ n. n.value) (λ n c. refl);
    marks = keeps (λ n. n.deleted) (λ n c. refl);
    quasi_factor = refl;
    max_retries = refl;
  }

  enqueue-result : (fuel : ℕ) → item ≢ 0 → enqueue (suc fuel) item q ≡ enqueued result
  unfolding enqueue enqueue_loop enqueue_round
  enqueue-result fuel ne =
      let is_item : (item == 0) ≡ false = ground (arith, ne) in
      let at_end : ((filled t).next.value == 0) ≡ true =
        (==_iff (filled t).next.value 0).1
          (ap (λ n. n.next.value) (filled_before t v.room) ∙ no_next) in
      rw (is_item, at_end, (same_iff q.tail q.tail).1 refl, enqueue_loop) refl

-- From a queue at rest with nodes ns behind the head, an enqueue of an item that is not NULL returns
-- after one round; it has put one node behind the others, with the item and not deleted, and the
-- others keep items and marks. NULL aborts the program.
pub rd_enqueue-Adds :
    (fuel item : ℕ) (q : RandomDequeueQueue) (ns : List ℕ)
    → IsQueue q ns
    → item ≢ 0
    → ((q' : RandomDequeueQueue) × (enqueue (suc fuel) item q ≡ enqueued q') × Adds q ns item q')
      × (enqueue (suc fuel) 0 q ≡ aborted)
unfolding enqueue
rd_enqueue-Adds fuel item q ns v ne =
    ((result q ns item v, enqueue-result q ns item v fuel ne, result-Adds q ns item v), refl)
