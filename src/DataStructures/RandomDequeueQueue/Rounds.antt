-- ===== src/DataStructures/RandomDequeueQueue/Rounds.antt =====
-- What the loops of a round reach.
use scal.Prelude.{
  ℕ, zero, suc, ◌+◌, ◌<◌, ◌≤◌, ◌≡◌, ◌≢◌, ◌⊎◌, true, false, some, List, [], ◌∷◌, arith, refl, sym,
  inl, inr, get_elem?, same_iff, Bool-cases, ◌==◌, ==_iff,
}
use scal.DataStructures.RandomDequeueQueue.{
  RandomDequeueQueue, after_cell, next_of, Skip, top_while, reaches, skip_deleted, walk,
}
use scal.DataStructures.RandomDequeueQueue.Chain.{Chain, Chain-le, IsQueue, Passes, Passes-refl}

-- The queue with its head at another node.
abbrev pub at_head : ℕ → RandomDequeueQueue → RandomDequeueQueue
at_head node q = record q { head = after_cell node q.head }

-- Only the head has moved, over deleted nodes.
pub record Moved (q : RandomDequeueQueue) (ns : List ℕ) (q' : RandomDequeueQueue) (rest : List ℕ)
    : Type 0 where
  pub passes : Passes q.nodes ns rest
  pub nodes : q'.nodes ≡ q.nodes
  pub quasi_factor : q'.quasi_factor ≡ q.quasi_factor
  pub max_retries : q'.max_retries ≡ q.max_retries
  pub queue : IsQueue q' rest

pub Moved-refl : (q : RandomDequeueQueue) (ns : List ℕ) → IsQueue q ns → Moved q ns q ns
Moved-refl q ns v = record {
  passes = Passes-refl q.nodes ns;
  nodes = refl;
  quasi_factor = refl;
  max_retries = refl;
  queue = v;
}

-- The loop at the head ends at a node that is not deleted, or with the head at the tail.
abbrev pub SkipEnds : RandomDequeueQueue → List ℕ → Skip → Type 0
SkipEnds q ns r =
    ((q' : RandomDequeueQueue) × (r ≡ top_while q') × Moved q ns q' [])
    ⊎ ((q' : RandomDequeueQueue) × (n : ℕ) × (rest : List ℕ) × (r ≡ reaches n q')
        × Moved q ns q' (n ∷ rest)
        × ((q.nodes n).deleted ≡ false))

-- One deleted node more was passed.
SkipEnds-cons :
    (q : RandomDequeueQueue) (n : ℕ) (ns : List ℕ) (r : Skip)
    → (q.nodes n).deleted ≡ true
    → SkipEnds (at_head n q) ns r
    → SkipEnds q (n ∷ ns) r
SkipEnds-cons q n ns r d (inl (q', e, m)) = inl (
  q',
  e,
  record {
    passes = inr (d, m.passes);
    nodes = m.nodes;
    quasi_factor = m.quasi_factor;
    max_retries = m.max_retries;
    queue = m.queue;
  },
)
SkipEnds-cons q n ns r d (inr (q', k, rest, e, m, live)) = inr (
  q',
  k,
  rest,
  e,
  record {
    passes = inr (d, m.passes);
    nodes = m.nodes;
    quasi_factor = m.quasi_factor;
    max_retries = m.max_retries;
    queue = m.queue;
  },
  live,
)

at_head-IsQueue :
    (q : RandomDequeueQueue) (n : ℕ) (ns : List ℕ) → IsQueue q (n ∷ ns) → IsQueue (at_head n q) ns
at_head-IsQueue q n ns v = record {
  linked = v.linked.2;
  tail_is_last = v.tail_is_last;
  room = v.room;
}

module _ (q : RandomDequeueQueue) (fuel n : ℕ) where
  skip_deleted-live :
      (q.nodes n).deleted ≡ false → skip_deleted (suc fuel) q.tail q.head n q ≡ reaches n q
  unfolding skip_deleted
  skip_deleted-live e = elim (Bool-cases (n == 0)) [
    | inl z ↦ rw (z, skip_deleted) refl
    | inr s ↦ rw (s, e, skip_deleted) refl
  ]

  skip_deleted-at_tail :
      n ≢ 0
      → (q.nodes n).deleted ≡ true
      → n ≡ q.tail.value
      → skip_deleted (suc fuel) q.tail q.head n q ≡ top_while (at_head n q)
  unfolding skip_deleted
  skip_deleted-at_tail ne d e =
      let not_null : (n == 0) ≡ false = ground (arith, ne) in
      let at_tail : (n == q.tail.value) ≡ true = (==_iff n q.tail.value).1 e in
      rw (not_null, d, at_tail, (same_iff q.head q.head).1 refl, skip_deleted) refl

  skip_deleted-next :
      n ≢ 0
      → (q.nodes n).deleted ≡ true
      → n ≢ q.tail.value
      → skip_deleted (suc fuel) q.tail q.head n q
        ≡ skip_deleted fuel q.tail (after_cell n q.head) (next_of q n).value (at_head n q)
  unfolding skip_deleted
  skip_deleted-next ne d e =
      let not_null : (n == 0) ≡ false = ground (arith, ne) in
      let inside : (n == q.tail.value) ≡ false = ground (arith, e) in
      rw (not_null, d, inside, (same_iff q.head q.head).1 refl, skip_deleted) refl

-- The fuel is enough when it is more than the distance of head and tail.
pub skip_deleted-SkipEnds :
    (fuel : ℕ) (q : RandomDequeueQueue) (n : ℕ) (ns : List ℕ)
    → IsQueue q (n ∷ ns)
    → q.tail.value < fuel + q.head.value
    → SkipEnds q (n ∷ ns) (skip_deleted fuel q.tail q.head n q)
skip_deleted-SkipEnds zero q n ns v lt =
    absurd (omega (arith, lt, v.linked.1, v.tail_is_last, Chain-le q.nodes n ns v.linked.2))
skip_deleted-SkipEnds (suc fuel) q n [] v lt = elim (Bool-cases (q.nodes n).deleted) [
  | inr live ↦
      rw (skip_deleted-live q fuel n live) (inr (q, n, [], refl, Moved-refl q (n ∷ []) v, live))
  | inl d ↦ rw (skip_deleted-at_tail q fuel n (omega (arith, v.linked.1)) d (sym v.tail_is_last)) (
      SkipEnds-cons q n [] (top_while (at_head n q)) d
        (inl (at_head n q, refl, Moved-refl (at_head n q) [] (at_head-IsQueue q n [] v))))
]
skip_deleted-SkipEnds (suc fuel) q n (m ∷ ns) v lt = elim (Bool-cases (q.nodes n).deleted) [
  | inr live ↦
      rw (skip_deleted-live q fuel n live)
        (inr (q, n, m ∷ ns, refl, Moved-refl q (n ∷ m ∷ ns) v, live))
  | inl d ↦
      let before_tail : n ≢ q.tail.value =
        λ e. omega (arith, e, v.tail_is_last, v.linked.2.1, Chain-le q.nodes m ns v.linked.2.2) in
      rw (skip_deleted-next q fuel n (omega (arith, v.linked.1)) d before_tail, v.linked.2.0)
        (SkipEnds-cons q n (m ∷ ns) (skip_deleted fuel q.tail (after_cell n q.head) m (at_head n q))
          d
          (skip_deleted-SkipEnds fuel (at_head n q) m ns (at_head-IsQueue q n (m ∷ ns) v)
            (omega (arith, lt, v.linked.1))))
]

-- The walk ends at one of the first nodes, no further than the index that was drawn.
pub walk-in_range :
    (random_index : ℕ) (q : RandomDequeueQueue) (n : ℕ) (ns : List ℕ)
    → Chain q.nodes n ns
    → (i : ℕ) × (i ≤ random_index) × (get_elem? (n ∷ ns) i ≡ some (walk random_index n q))
unfolding walk
walk-in_range zero q n ns h = (0, omega arith, refl)
walk-in_range (suc random_index) q n [] h =
    let at_end : ((next_of q n).value == 0) ≡ true = (==_iff (next_of q n).value 0).1 h in
    (0, omega arith, rw (at_end, walk) refl)
walk-in_range (suc random_index) q n (m ∷ ns) (e, lt, h) =
    let (i, le, at) = walk-in_range random_index q m ns h in
    let goes_on : (m == 0) ≡ false = ground (arith, lt) in
    (suc i, omega (arith, le), rw (e, goes_on, walk) at)
