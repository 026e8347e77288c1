-- ===== src/DataStructures/UnboundedSizeKFifo/Dequeue.antt =====
-- What a round of `dequeue` does when no other thread interferes.
use scal.Prelude.{
  ℕ, ◌<◌, ◌≡◌, ◌≢◌, true, false, ◌==◌, if◌then◌else◌, Option, none, some, List, ◌∷◌, refl, sym, ap,
  ◌∙◌, subst, arith, update, update_ne, update_keeps, Bool-cases, Option-cases, inl, inr, Cell,
  same_iff, next_aba, ==_iff,
}
use scal.DataStructures.KSegment.{
  Round, returns, again, emptied, find_index-some, find_index-none, wanted_item, unwanted_item,
}
use scal.DataStructures.UnboundedSizeKFifo.{
  UnboundedSizeKFifo, KSegment, next_of, with_item, mark_deleted, advance_tail, advance_head,
  find_index, dequeue_round,
}
use scal.DataStructures.UnboundedSizeKFifo.Commit.{same_self}
use scal.DataStructures.UnboundedSizeKFifo.Chain.{
  Chain, Chain-le, Chain-same, IsKFifo, appended, advance_tail-last, appended-items,
}

abbrev pub slots : UnboundedSizeKFifo → ℕ → ℕ → Cell
slots q segment = (q.segments segment).items

-- Every slot of a segment is free.
abbrev pub IsBare : UnboundedSizeKFifo → ℕ → Type 0
IsBare q segment = (d : ℕ) → d < q.k → (slots q segment d).value ≡ 0

-- The queue that an item is taken from: if the head is the tail, a new segment was put behind it.
abbrev pub before_taking : UnboundedSizeKFifo → UnboundedSizeKFifo
before_taking q = if q.head.value == q.tail.value then appended q else q

-- The item x was taken out of a slot of the head's segment.
pub record Took (q : UnboundedSizeKFifo) (x : ℕ) (q' : UnboundedSizeKFifo) : Type 0 where
  pub place : ℕ
  pub near : place < q.k
  pub held : (slots q q.head.value place).value ≡ x
  pub real : x ≢ 0
  pub after :
      q' ≡ with_item (before_taking q) q.head.value place (emptied (slots q q.head.value place))

-- The head's segment was empty, is deleted, and the next one is the head now.
pub record Passed (q q' : UnboundedSizeKFifo) : Type 0 where
  pub bare : IsBare q q.head.value
  pub not_last : q.head.value ≢ q.tail.value
  pub after : q' ≡ record (mark_deleted q.head.value q) {
    head = record { value = (next_of q q.head).value; aba = next_aba q.head.aba };
  }

abbrev pub DequeueRound : UnboundedSizeKFifo → Round UnboundedSizeKFifo (Option ℕ) → Type 0
DequeueRound q (returns (some x) q') = Took q x q'
DequeueRound q (returns none q') = (q' ≡ q) × (q.head.value ≡ q.tail.value) × IsBare q q.head.value
DequeueRound q (again q') = Passed q q'

module _ (random : ℕ) (q : UnboundedSizeKFifo) (ns : List ℕ) (v : IsKFifo q ns) where
  taking : (if q.head.value == q.tail.value then advance_tail q.tail q else q) ≡ before_taking q
  taking = ap (λ r. if q.head.value == q.tail.value then r else q) (advance_tail-last q ns v)

  slots-taking : slots (before_taking q) q.head.value ≡ slots q q.head.value
  slots-taking = elim (Bool-cases (q.head.value == q.tail.value)) [
    | inl e ↦ rw e (
        appended-items q ns v q.head.value
          (omega (arith, v.room, Chain-le q.segments q.head.value q.tail.value ns v.linked)))
    | inr e ↦ rw e refl
  ]

  dequeue-some :
      (index : ℕ) (c : Cell)
      → find_index q.head.value random false q ≡ some (index, c)
      → c ≡ slots q q.head.value index
      → dequeue_round random q
        ≡ returns (some c.value) (with_item (before_taking q) q.head.value index (emptied c))
  unfolding dequeue_round
  dequeue-some index c e at =
      rw
        (
          e,
          dequeue_round,
          same_self q.head,
          taking,
          (same_iff (slots (before_taking q) q.head.value index) c).1
              (ap (λ f. f index) slots-taking ∙ sym at),
        )
        refl

  dequeue-none :
      find_index q.head.value random false q ≡ none
      → (q.head.value == q.tail.value) ≡ true
      → dequeue_round random q ≡ returns none q
  unfolding dequeue_round
  dequeue-none e h = rw (e, dequeue_round, same_self q.head, h) refl

  dequeue-next :
      find_index q.head.value random false q ≡ none
      → (q.head.value == q.tail.value) ≡ false
      → dequeue_round random q
        ≡ again (record (mark_deleted q.head.value q) {
          head = record { value = (next_of q q.head).value; aba = next_aba q.head.aba };
        })
  unfolding dequeue_round advance_head
  dequeue-next e h = rw (e, dequeue_round, same_self q.head, h) refl

  -- On a well-formed queue, a round of `dequeue` takes an item out of the head's segment, if there is
  -- one; it answers empty only if that segment is empty and is the tail too; and otherwise it is
  -- empty, and the head moves on.
  pub dequeue_round_lem : DequeueRound q (dequeue_round random q)
  unfolding find_index
  dequeue_round_lem = elim (Option-cases (find_index q.head.value random false q)) [
    | inl e ↦ elim (Bool-cases (q.head.value == q.tail.value)) [
      | inl h ↦ rw (dequeue-none e h) (refl, (==_iff q.head.value q.tail.value).0 h, bare e)
      | inr h ↦
          rw (dequeue-next e h)
            (record { bare = bare e; not_last = ground (arith, h); after = refl })
    ]
    | inr ((index, c), e) ↦
        let found = find_index-some (slots q q.head.value) q.k random false e in
        rw (dequeue-some index c e found.1) (record {
          place = index;
          near = found.0;
          held = ap (λ c. c.value) (sym found.1);
          real = wanted_item c found.2;
          after = ap (λ d. with_item (before_taking q) q.head.value index (emptied d)) found.1;
        })
  ]
    where
      bare : find_index q.head.value random false q ≡ none → IsBare q q.head.value
      bare e d lt =
          unwanted_item (slots q q.head.value d)
            (find_index-none (slots q q.head.value) q.k random false e d lt)

-- After the head has moved on, the rest of the queue is well-formed and keeps its items.
module _ (q q' : UnboundedSizeKFifo) (a : ℕ) (ns : List ℕ) (v : IsKFifo q (a ∷ ns))
    (p : Passed q q') where
  pub passed-slots : (b : ℕ) → slots q' b ≡ slots q b
  passed-slots b =
      ap (λ r. slots r b) p.after
      ∙ update_keeps (λ s. s.items) q.segments q.head.value b
          (record (q.segments q.head.value) { deleted = true }) refl

  pub Passed-IsKFifo : IsKFifo q' ns
  Passed-IsKFifo =
      let s' : KSegment = record (q.segments q.head.value) { deleted = true } in
      let le = Chain-le q.segments a q.tail.value ns v.linked.3 in
      let same_tail : update q.segments q.head.value s' q.tail.value ≡ q.segments q.tail.value =
        update_ne q.segments q.head.value s' q.tail.value (omega (arith, le, v.linked.1)) in
      rw p.after (record {
        linked =
            subst (λ h. Chain (update q.segments q.head.value s') h q.tail.value ns)
              (sym v.linked.0)
              (Chain-same q.segments (update q.segments q.head.value s') a q.tail.value ns
                (λ b lo hi.
                  let e = update_ne q.segments q.head.value s' b (omega (arith, v.linked.1, lo)) in
                  (ap (λ s. s.next.value) e, ap (λ s. s.deleted) e))
                v.linked.3);
        last = ap (λ s. s.next.value) same_tail ∙ v.last;
        live = ap (λ s. s.deleted) same_tail ∙ v.live;
        present = omega (arith, v.present, v.linked.1, v.linked.0);
        room = v.room;
        positive = v.positive;
      })
