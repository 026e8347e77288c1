-- ===== src/DataStructures/RandomDequeueQueue/Takes.antt =====
-- The nodes that a dequeue may take, and what becomes of the queue when it takes one.
use scal.Prelude.{
  ℕ, suc, ◌<◌, ◌≡◌, ◌⊎◌, true, false, none, some, List, [], arith, refl, sym, ap, ◌∙◌, subst, inl,
  inr, get_elem?, Bool-cases, ◌==◌, ==_iff, leb, update, update_self, update_ne, ℕ_discrete,
}
use scal.DataStructures.RandomDequeueQueue.{
  Node, RandomDequeueQueue, next_of, Progress, returned, again, take_node, draw, dequeue_round,
}
use scal.DataStructures.RandomDequeueQueue.Chain.{
  Chain-links, IsQueue, Passes, Passes-refl, Passes-trans,
}
use scal.DataStructures.RandomDequeueQueue.Rounds.{Moved}
use native.Mathlib.Nat.{mod-lt}

abbrev pub marked : (ℕ → Node) → ℕ → ℕ → Node
marked nodes n = update nodes n (record (nodes n) { deleted = true })

-- Deleted nodes at the begin of ns were passed, which leaves rest; one of its first `quasi_factor`
-- nodes was not deleted, holds x, and is deleted now.
pub record Takes (q : RandomDequeueQueue) (ns : List ℕ) (x : ℕ) (q' : RandomDequeueQueue)
    : Type 0 where
  pub rest : List ℕ
  pub passes : Passes q.nodes ns rest
  pub index : ℕ
  pub near : index < q.quasi_factor
  pub node : ℕ
  pub place : get_elem? rest index ≡ some node
  pub live : (q.nodes node).deleted ≡ false
  pub item : x ≡ (q.nodes node).value
  pub after : q'.nodes ≡ marked q.nodes node
  pub queue : IsQueue q' rest

-- An item was taken, or all nodes were deleted and the answer is false.
abbrev pub Answers : RandomDequeueQueue → List ℕ → Progress → Type 0
Answers q ns r =
    ((q' : RandomDequeueQueue) × (r ≡ returned none q') × Moved q ns q' [])
    ⊎ ((x : ℕ) × (q' : RandomDequeueQueue) × (r ≡ returned (some x) q') × Takes q ns x q')

-- The next round has one retry more; without a retry left the round has passed all nodes.
abbrev pub GoesOn : ℕ → RandomDequeueQueue → List ℕ → Progress → Type 0
GoesOn retries q ns r =
    (q' : RandomDequeueQueue) × (rest : List ℕ) × (r ≡ again (suc retries) q')
    × Moved q ns q' rest
    × ((retries < q.max_retries) ⊎ (rest ≡ []))

Moved-trans :
    (q : RandomDequeueQueue) (ns : List ℕ) (q₁ : RandomDequeueQueue) (ms : List ℕ)
    (q₂ : RandomDequeueQueue) (ls : List ℕ)
    → Moved q ns q₁ ms
    → Moved q₁ ms q₂ ls
    → Moved q ns q₂ ls
Moved-trans q ns q₁ ms q₂ ls h k = record {
  passes = Passes-trans q.nodes ns ms ls h.passes (subst (λ f. Passes f ms ls) h.nodes k.passes);
  nodes = k.nodes ∙ h.nodes;
  quasi_factor = k.quasi_factor ∙ h.quasi_factor;
  max_retries = k.max_retries ∙ h.max_retries;
  queue = k.queue;
}

-- What is so after the head has moved is so before.
pub Answers-Moved :
    (q : RandomDequeueQueue) (ns : List ℕ) (q₁ : RandomDequeueQueue) (ms : List ℕ) (r : Progress)
    → Moved q ns q₁ ms
    → Answers q₁ ms r
    → Answers q ns r
Answers-Moved q ns q₁ ms r h (inl (q', e, k)) = inl (q', e, Moved-trans q ns q₁ ms q' [] h k)
Answers-Moved q ns q₁ ms r h (inr (x, q', e, t)) = inr (
  x,
  q',
  e,
  record {
    rest = t.rest;
    passes =
        Passes-trans q.nodes ns ms t.rest h.passes
          (subst (λ f. Passes f ms t.rest) h.nodes t.passes);
    index = t.index;
    near = subst (λ k. t.index < k) h.quasi_factor t.near;
    node = t.node;
    place = t.place;
    live = ap (λ f. (f t.node).deleted) (sym h.nodes) ∙ t.live;
    item = t.item ∙ ap (λ f. (f t.node).value) h.nodes;
    after = t.after ∙ ap (λ f. marked f t.node) h.nodes;
    queue = t.queue;
  },
)

marked-next : (nodes : ℕ → Node) (n k : ℕ) → (marked nodes n k).next ≡ (nodes k).next
marked-next nodes n k = elim (ℕ_discrete n k) [
  | yes e ↦
      subst (λ k. (marked nodes n k).next ≡ (nodes k).next) e
        (rw (update_self nodes n (record (nodes n) { deleted = true })) refl)
  | no ne ↦ rw (update_ne nodes n (record (nodes n) { deleted = true }) k ne) refl
]

-- At a node among the first ones, an item is taken or the round is over.
pub take_node-lem :
    (retries : ℕ) (q : RandomDequeueQueue) (ns : List ℕ) (index n : ℕ)
    → IsQueue q ns
    → index < q.quasi_factor
    → get_elem? ns index ≡ some n
    → (((q.nodes n).deleted ≡ true) × (take_node (suc retries) n q ≡ again (suc retries) q))
      ⊎ Answers q ns (take_node (suc retries) n q)
unfolding take_node
take_node-lem retries q ns index n v near place = elim (Bool-cases (q.nodes n).deleted) [
  | inl d ↦ inl (d, rw (d, take_node) refl)
  | inr live ↦ inr (
      inr (
        (q.nodes n).value,
        record q { nodes = marked q.nodes n },
        rw (live, take_node) refl,
        record {
          rest = ns;
          passes = Passes-refl q.nodes ns;
          index = index;
          near = near;
          node = n;
          place = place;
          live = live;
          item = refl;
          after = refl;
          queue = record {
            linked =
                Chain-links q.nodes (marked q.nodes n) q.head.value ns (marked-next q.nodes n)
                  v.linked;
            tail_is_last = v.tail_is_last;
            room = v.room;
          };
        },
      ))
]

-- An index that is not 0 is only drawn while there are retries.
pub draw-bound :
    (random retries : ℕ) (q : RandomDequeueQueue)
    → 0 < q.quasi_factor
    → (draw random retries q ≡ 0)
      ⊎ ((retries < q.max_retries) × (draw random retries q < q.quasi_factor))
unfolding draw
draw-bound random retries q pos = elim (Bool-cases (leb q.max_retries retries)) [
  | inl none_left ↦ rw (none_left, draw) (inl refl)
  | inr left ↦ rw (left, draw) (inr (ground (arith, left), mod-lt random pos))
]

pub dequeue_round-empty :
    (random retries : ℕ) (q : RandomDequeueQueue)
    → IsQueue q []
    → dequeue_round random retries q ≡ returned none q
unfolding dequeue_round
dequeue_round-empty random retries q v =
    let at_end : (q.head.value == q.tail.value) ≡ true =
      (==_iff q.head.value q.tail.value).1 (sym v.tail_is_last) in
    let no_next : ((next_of q q.head.value).value == 0) ≡ true =
      (==_iff (next_of q q.head.value).value 0).1 v.linked in
    rw (at_end, no_next, dequeue_round) refl
