-- ===== src/DataStructures/UnboundedSizeKFifo/Ends.antt =====
-- `dequeue` comes to an end on a well-formed queue, when no other thread interferes.
use scal.Prelude.{
  ℕ, zero, suc, ◌<◌, ◌≡◌, ◌≢◌, ◌⊎◌, ◌==◌, Option, none, some, List, [], ◌∷◌, ◌++◌, length, All,
  All-imp, refl, sym, ap, ◌∙◌, subst, arith, update, update_self, update_ne, Bool-cases, inl, inr,
}
use scal.DataStructures.KSegment.{Round, returns, again, emptied}
use scal.DataStructures.UnboundedSizeKFifo.{
  UnboundedSizeKFifo, KSegment, dequeue_round, dequeue, done,
}
use scal.DataStructures.UnboundedSizeKFifo.Chain.{
  Chain-le, IsKFifo, appended-items, appended-IsKFifo, with_item-IsKFifo,
}
use scal.DataStructures.UnboundedSizeKFifo.Dequeue.{
  slots, IsBare, before_taking, Took, Passed, DequeueRound, dequeue_round_lem, passed-slots,
  Passed-IsKFifo,
}

-- What a `dequeue` has taken from the queue with these segments: an item of the first segment that
-- is not empty, which is the head now. Every slot but this one is as it was, in the segments there were.
pub record Taken (q : UnboundedSizeKFifo) (all : List ℕ) (x : ℕ) (q' : UnboundedSizeKFifo)
    : Type 0 where
  pub before : List ℕ
  pub segment : ℕ
  pub after : List ℕ
  pub split : all ≡ before ++ segment ∷ after
  pub bare : All (IsBare q) before
  pub place : ℕ
  pub near : place < q.k
  pub held : (slots q segment place).value ≡ x
  pub real : x ≢ 0
  pub head : q'.head.value ≡ segment
  pub rest : List ℕ
  pub is_kfifo : IsKFifo q' rest
  pub emptied_slot :
      slots q' segment ≡ update (slots q segment) place (emptied (slots q segment place))
  pub other_slots : (b : ℕ) → segment ≢ b → b < q.allocated → slots q' b ≡ slots q b

-- All segments were empty; the last one is the only one now, and no slot of any has changed.
pub record FoundEmpty (q : UnboundedSizeKFifo) (all : List ℕ) (q' : UnboundedSizeKFifo)
    : Type 0 where
  pub bare : All (IsBare q) all
  pub is_kfifo : IsKFifo q' []
  pub tail : q'.tail ≡ q.tail
  pub same_slots : (b : ℕ) → slots q' b ≡ slots q b

abbrev pub DequeueEnds : UnboundedSizeKFifo → List ℕ → Option ℕ → UnboundedSizeKFifo → Type 0
DequeueEnds q all none q' = FoundEmpty q all q'
DequeueEnds q all (some x) q' = Taken q all x q'

module _ (q : UnboundedSizeKFifo) (ns : List ℕ) (v : IsKFifo q ns) where
  before_taking-slots : (b : ℕ) → b < q.allocated → slots (before_taking q) b ≡ slots q b
  before_taking-slots b lt = elim (Bool-cases (q.head.value == q.tail.value)) [
    | inl e ↦ rw e (appended-items q ns v b (omega (arith, lt)))
    | inr e ↦ rw e refl
  ]

  before_taking-IsKFifo :
      (rest : List ℕ) × IsKFifo (before_taking q) rest × ((before_taking q).head ≡ q.head)
  before_taking-IsKFifo = elim (Bool-cases (q.head.value == q.tail.value)) [
    | inl e ↦ rw e (ns ++ q.allocated ∷ [], appended-IsKFifo q ns v, refl)
    | inr e ↦ rw e (ns, v, refl)
  ]

  Took-Taken : (q' : UnboundedSizeKFifo) (x : ℕ) → Took q x q' → Taken q (q.head.value ∷ ns) x q'
  Took-Taken q' x t =
      let c = emptied (slots q q.head.value t.place) in
      let r = before_taking q in
      let b = before_taking-IsKFifo in
      let head_lt : q.head.value < q.allocated =
        omega (arith, v.room, Chain-le q.segments q.head.value q.tail.value ns v.linked) in
      let old = before_taking-slots q.head.value head_lt in
      let s' : KSegment = record (r.segments q.head.value) {
        items = update (slots r q.head.value) t.place c;
      } in
      record {
        before = [];
        segment = q.head.value;
        after = ns;
        split = refl;
        bare = tt;
        place = t.place;
        near = t.near;
        held = t.held;
        real = t.real;
        head = ap (λ r. r.head.value) t.after ∙ ap (λ c. c.value) b.2;
        rest = b.0;
        is_kfifo = rw t.after (with_item-IsKFifo r b.0 b.1 q.head.value t.place c);
        emptied_slot =
            ap (λ r. slots r q.head.value) t.after
            ∙ ap (λ s. s.items) (update_self r.segments q.head.value s')
            ∙ ap (λ f. update f t.place c) old;
        other_slots = λ b ne lt.
            ap (λ r. slots r b) t.after
            ∙ ap (λ s. s.items) (update_ne r.segments q.head.value s' b ne)
            ∙ before_taking-slots b lt;
      }

module _ (q q' : UnboundedSizeKFifo) (a : ℕ) (ns : List ℕ) (v : IsKFifo q (a ∷ ns))
    (p : Passed q q') where
  same_k : q'.k ≡ q.k
  same_k = ap (λ r. r.k) p.after

  Passed-IsBare : (b : ℕ) → IsBare q' b → IsBare q b
  Passed-IsBare b bare d lt =
      ap (λ f. (f d).value) (sym (passed-slots q q' a ns v p b)) ∙ bare d (omega (arith, same_k))

  passed-ends :
      (r : Option ℕ) (q'' : UnboundedSizeKFifo)
      → DequeueEnds q' (a ∷ ns) r q''
      → DequeueEnds q (q.head.value ∷ a ∷ ns) r q''
  passed-ends none q'' h = record {
    bare = (p.bare, All-imp (a ∷ ns) (λ b bare. Passed-IsBare b bare) h.bare);
    is_kfifo = h.is_kfifo;
    tail = h.tail ∙ ap (λ r. r.tail) p.after;
    same_slots = λ b. h.same_slots b ∙ passed-slots q q' a ns v p b;
  }
  passed-ends (some x) q'' t = record {
    before = q.head.value ∷ t.before;
    segment = t.segment;
    after = t.after;
    split = ap (λ l. q.head.value ∷ l) t.split;
    bare = (p.bare, All-imp t.before (λ b bare. Passed-IsBare b bare) t.bare);
    place = t.place;
    near = omega (arith, same_k, t.near);
    held = ap (λ f. (f t.place).value) (sym (passed-slots q q' a ns v p t.segment)) ∙ t.held;
    real = t.real;
    head = t.head;
    rest = t.rest;
    is_kfifo = t.is_kfifo;
    emptied_slot =
        t.emptied_slot
        ∙ ap (λ f. update f t.place (emptied (f t.place))) (passed-slots q q' a ns v p t.segment);
    other_slots = λ b ne lt.
        t.other_slots b ne (omega (arith, lt, ap (λ r. r.allocated) p.after))
        ∙ passed-slots q q' a ns v p b;
  }

Round-cases :
    {A : Type 0} (r : Round UnboundedSizeKFifo A)
    → ((x : A) × (q' : UnboundedSizeKFifo) × (r ≡ returns x q'))
      ⊎ ((q' : UnboundedSizeKFifo) × (r ≡ again q'))
Round-cases (returns x q') = inl (x, q', refl)
Round-cases (again q') = inr (q', refl)

module _ (rand : ℕ → ℕ) where
  dequeue-returns :
      (fuel : ℕ) (q : UnboundedSizeKFifo) (x : Option ℕ) (q' : UnboundedSizeKFifo)
      → dequeue_round (rand fuel) q ≡ returns x q'
      → dequeue rand (suc fuel) q ≡ done x q'
  unfolding dequeue
  dequeue-returns fuel q x q' e = rw (e, dequeue) refl

  dequeue-again :
      (fuel : ℕ) (q q' : UnboundedSizeKFifo)
      → dequeue_round (rand fuel) q ≡ again q'
      → dequeue rand (suc fuel) q ≡ dequeue rand fuel q'
  unfolding dequeue
  dequeue-again fuel q q' e = rw (e, dequeue) refl

  -- On a well-formed queue, as many rounds as it has segments are enough for `dequeue`: it answers
  -- empty only if every segment is empty, and otherwise it takes an item out of the first segment
  -- that is not; all other slots of the segments keep their words, and the queue stays well-formed,
  -- with that segment as the head, or with only the last one if the answer is empty.
  pub uskfifo-DequeueEnds :
      (fuel : ℕ) (q : UnboundedSizeKFifo) (ns : List ℕ)
      → IsKFifo q ns
      → length ns < fuel
      → (r : Option ℕ) × (q' : UnboundedSizeKFifo) × (dequeue rand fuel q ≡ done r q')
        × DequeueEnds q (q.head.value ∷ ns) r q'
  uskfifo-DequeueEnds zero q ns v le = absurd (omega arith)
  uskfifo-DequeueEnds (suc fuel) q [] v le = elim (Round-cases (dequeue_round (rand fuel) q)) [
    | inl (some x, q', e) ↦ (
      some x,
      q',
      dequeue-returns fuel q (some x) q' e,
      Took-Taken q [] v q' x (subst (DequeueRound q) e (dequeue_round_lem (rand fuel) q [] v)),
    )
    | inl (none, q', e) ↦ (
      none,
      q',
      dequeue-returns fuel q none q' e,
      at_end q' (subst (DequeueRound q) e (dequeue_round_lem (rand fuel) q [] v)),
    )
    | inr (q', e) ↦
        let p : Passed q q' = subst (DequeueRound q) e (dequeue_round_lem (rand fuel) q [] v) in
        absurd (p.not_last v.linked)
  ]
    where
      at_end :
          (q' : UnboundedSizeKFifo)
          → DequeueRound q (returns none q')
          → FoundEmpty q (q.head.value ∷ []) q'
      at_end q' h =
          rw (h.0) (record { bare = (h.2, tt); is_kfifo = v; tail = refl; same_slots = λ b. refl })
  uskfifo-DequeueEnds (suc fuel) q (a ∷ ns) v le =
      elim (Round-cases (dequeue_round (rand fuel) q)) [
        | inl (some x, q', e) ↦ (
          some x,
          q',
          dequeue-returns fuel q (some x) q' e,
          Took-Taken q (a ∷ ns) v q' x
              (subst (DequeueRound q) e (dequeue_round_lem (rand fuel) q (a ∷ ns) v)),
        )
        | inl (none, q', e) ↦
            absurd
              (not_end q' (subst (DequeueRound q) e (dequeue_round_lem (rand fuel) q (a ∷ ns) v)))
        | inr (q', e) ↦
            let p : Passed q q' =
              subst (DequeueRound q) e (dequeue_round_lem (rand fuel) q (a ∷ ns) v) in
            let (r, q'', f, ends) =
              uskfifo-DequeueEnds fuel q' ns (Passed-IsKFifo q q' a ns v p) (omega arith) in
            (
              r,
              q'',
              dequeue-again fuel q q' e ∙ f,
              passed-ends q q' a ns v p r q'' (
                  subst (λ h. DequeueEnds q' (h ∷ ns) r q'')
                    (ap (λ r. r.head.value) p.after ∙ v.linked.0) ends),
            )
      ]
    where
      not_end : (q' : UnboundedSizeKFifo) → ¬ DequeueRound q (returns none q')
      not_end q' h =
          omega (arith, h.1, v.linked.1, Chain-le q.segments a q.tail.value ns v.linked.3)
