-- ===== src/DataStructures/UnboundedSizeKFifo/Enqueue.antt =====
-- `enqueue` comes to an end on a well-formed queue, when no other thread interferes.
use scal.Prelude.{
  ℕ, suc, ◌<◌, ◌≡◌, ◌≢◌, ◌⊎◌, Bool, true, false, ◌==◌, if◌then◌else◌, none, some, List, [], ◌∷◌,
  ◌++◌, refl, sym, ap, ◌∙◌, subst, arith, Option-cases, inl, inr, Cell, same_iff,
}
use scal.DataStructures.KSegment.{
  Round, returns, again, filled, find_index-some, find_index-none, wanted_free, unwanted_free,
}
use scal.DataStructures.UnboundedSizeKFifo.{
  UnboundedSizeKFifo, with_item, committed, find_index, enqueue_round, enqueue_loop, enqueue, Exit,
  done, aborted,
}
use scal.DataStructures.UnboundedSizeKFifo.Commit.{same_self, Agrees, committed_live}
use scal.DataStructures.UnboundedSizeKFifo.Chain.{
  IsKFifo, appended, advance_tail-last, appended-new, appended-IsKFifo, with_item-IsKFifo,
}
use scal.DataStructures.UnboundedSizeKFifo.Dequeue.{slots}

-- The item was put in a free slot of the tail's segment, and nothing else has changed.
pub record Put (q : UnboundedSizeKFifo) (item : ℕ) (q' : UnboundedSizeKFifo) : Type 0 where
  pub place : ℕ
  pub near : place < q.k
  pub free : (slots q q.tail.value place).value ≡ 0
  pub agrees : Agrees (with_item q q.tail.value place (filled item (slots q q.tail.value place))) q'

abbrev pub TailFull : UnboundedSizeKFifo → Type 0
TailFull q = (d : ℕ) → d < q.k → (slots q q.tail.value d).value ≢ 0

abbrev pub EnqueueRound : UnboundedSizeKFifo → ℕ → Round UnboundedSizeKFifo Bool → Type 0
EnqueueRound q item (returns result q') = (result ≡ true) × Put q item q'
EnqueueRound q item (again q') = TailFull q × (q' ≡ appended q)

Agrees-IsKFifo :
    (q q' : UnboundedSizeKFifo) (ns : List ℕ) → Agrees q q' → IsKFifo q ns → IsKFifo q' ns
Agrees-IsKFifo q q' ns a v = record {
  linked = rw (a.segments, a.head, a.tail) v.linked;
  last = rw (a.segments, a.tail) v.last;
  live = rw (a.segments, a.tail) v.live;
  present = omega (arith, a.head, v.present);
  room = omega (arith, ap (λ c. c.value) a.tail, a.allocated, v.room);
  positive = omega (arith, a.k, v.positive);
}

Put-IsKFifo :
    (q q' : UnboundedSizeKFifo) (item : ℕ) (ns : List ℕ)
    → IsKFifo q ns
    → Put q item q'
    → IsKFifo q' ns
Put-IsKFifo q q' item ns v p =
    let c = filled item (slots q q.tail.value p.place) in
    Agrees-IsKFifo (with_item q q.tail.value p.place c) q' ns p.agrees
      (with_item-IsKFifo q ns v q.tail.value p.place c)

module _ (item random : ℕ) (q : UnboundedSizeKFifo) (ns : List ℕ) (v : IsKFifo q ns) where
  enqueue-none :
      find_index q.tail.value random true q ≡ none
      → enqueue_round item random q ≡ again (appended q)
  unfolding enqueue_round
  enqueue-none e = rw (e, enqueue_round, same_self q.tail) (ap again (advance_tail-last q ns v))

  module _ (index : ℕ) (c : Cell) where
    abbrev stored : UnboundedSizeKFifo
    stored = with_item q q.tail.value index (filled item c)

    live_after :
        ((committed q.tail (filled item c) index stored).0 ≡ true)
        × Agrees stored (committed q.tail (filled item c) index stored).1
    live_after =
        committed_live q.tail (filled item c) index stored
          (with_item-IsKFifo q ns v q.tail.value index (filled item c)).live

    enqueue-some :
        find_index q.tail.value random true q ≡ some (index, c)
        → c ≡ slots q q.tail.value index
        → enqueue_round item random q
          ≡ returns true (committed q.tail (filled item c) index stored).1
    unfolding enqueue_round
    enqueue-some e at =
        rw
          (
            e,
            enqueue_round,
            same_self q.tail,
            (same_iff (slots q q.tail.value index) c).1 (sym at),
            live_after.0,
          )
          refl

  -- On a well-formed queue, a round of `enqueue` puts the item in a free slot of the tail's segment,
  -- if there is one, and returns true; otherwise it links a new segment behind the tail.
  pub enqueue_round_lem : EnqueueRound q item (enqueue_round item random q)
  unfolding find_index
  enqueue_round_lem = elim (Option-cases (find_index q.tail.value random true q)) [
    | inl e ↦ rw (enqueue-none e) (
      λ d lt.
          unwanted_free (slots q q.tail.value d)
            (find_index-none (slots q q.tail.value) q.k random true e d lt),
      refl,
    )
    | inr ((index, c), e) ↦
        let found = find_index-some (slots q q.tail.value) q.k random true e in
        rw (enqueue-some index c e found.1) (
          refl,
          record {
            place = index;
            near = found.0;
            free = subst (λ c. c.value ≡ 0) found.1 (wanted_free c found.2);
            agrees =
                subst
                  (λ d.
                    Agrees (with_item q q.tail.value index (filled item d))
                      (committed q.tail (filled item c) index (stored index c)).1)
                  found.1 (live_after index c).1;
          },
        )
  ]

Round-cases :
    (r : Round UnboundedSizeKFifo Bool)
    → ((x : Bool) × (q' : UnboundedSizeKFifo) × (r ≡ returns x q'))
      ⊎ ((q' : UnboundedSizeKFifo) × (r ≡ again q'))
Round-cases (returns x q') = inl (x, q', refl)
Round-cases (again q') = inr (q', refl)

-- The item went to the tail's segment, or to a new one behind the full one.
abbrev pub EnqueueEnds : UnboundedSizeKFifo → List ℕ → ℕ → UnboundedSizeKFifo → Type 0
EnqueueEnds q ns item q' =
    (Put q item q' × IsKFifo q' ns)
    ⊎ (TailFull q × Put (appended q) item q' × IsKFifo q' (ns ++ q.allocated ∷ []))

module _ (rand : ℕ → ℕ) (item : ℕ) where
  loop-returns :
      (fuel : ℕ) (q : UnboundedSizeKFifo) (x : Bool) (q' : UnboundedSizeKFifo)
      → enqueue_round item (rand fuel) q ≡ returns x q'
      → enqueue_loop rand (suc fuel) item q ≡ done x q'
  unfolding enqueue_loop
  loop-returns fuel q x q' e = rw (e, enqueue_loop) refl

  loop-again :
      (fuel : ℕ) (q q' : UnboundedSizeKFifo)
      → enqueue_round item (rand fuel) q ≡ again q'
      → enqueue_loop rand (suc fuel) item q ≡ enqueue_loop rand fuel item q'
  unfolding enqueue_loop
  loop-again fuel q q' e = rw (e, enqueue_loop) refl

  -- A new segment has a free slot.
  loop_after_growth :
      (fuel : ℕ) (q : UnboundedSizeKFifo) (ns : List ℕ)
      → IsKFifo q ns
      → (q' : UnboundedSizeKFifo) × (enqueue_loop rand (suc fuel) item (appended q) ≡ done true q')
        × Put (appended q) item q'
        × IsKFifo q' (ns ++ q.allocated ∷ [])
  loop_after_growth fuel q ns v =
      let w = appended-IsKFifo q ns v in
      let g = appended q in
      elim (Round-cases (enqueue_round item (rand fuel) g)) [
        | inl (x, q', e) ↦
            let r : (x ≡ true) × Put g item q' =
              subst (EnqueueRound g item) e
                (enqueue_round_lem item (rand fuel) g (ns ++ q.allocated ∷ []) w) in
            (
              q',
              loop-returns fuel g x q' e ∙ ap (λ b. done b q') r.0,
              r.1,
              Put-IsKFifo g q' item (ns ++ q.allocated ∷ []) w r.1,
            )
        | inr (q', e) ↦
            let r : TailFull g × (q' ≡ appended g) =
              subst (EnqueueRound g item) e
                (enqueue_round_lem item (rand fuel) g (ns ++ q.allocated ∷ []) w) in
            absurd (r.0 0 v.positive (ap (λ s. (s.items 0).value) (appended-new q ns v)))
      ]

  -- On a well-formed queue two rounds are enough for `enqueue` of an item that is not NULL: it
  -- returns true and has put the item in a free slot of the tail's segment, or of a new segment that
  -- it has linked behind the full one, and the queue stays well-formed.
  pub uskfifo-EnqueueEnds :
      (fuel : ℕ) (q : UnboundedSizeKFifo) (ns : List ℕ)
      → item ≢ 0
      → IsKFifo q ns
      → (q' : UnboundedSizeKFifo) × (enqueue rand (suc (suc fuel)) item q ≡ done true q')
        × EnqueueEnds q ns item q'
  unfolding enqueue
  uskfifo-EnqueueEnds fuel q ns ne v =
      let loops = λ (r : Exit Bool) (e : enqueue_loop rand (suc (suc fuel)) item q ≡ r).
        ap (λ b. if b then aborted else enqueue_loop rand (suc (suc fuel)) item q) not_null ∙ e in
      elim (Round-cases (enqueue_round item (rand (suc fuel)) q)) [
        | inl (x, q', e) ↦
            let r : (x ≡ true) × Put q item q' =
              subst (EnqueueRound q item) e (enqueue_round_lem item (rand (suc fuel)) q ns v) in
            (
              q',
              loops (done true q') (loop-returns (suc fuel) q x q' e ∙ ap (λ b. done b q') r.0),
              inl (r.1, Put-IsKFifo q q' item ns v r.1),
            )
        | inr (g, e) ↦
            let r : TailFull q × (g ≡ appended q) =
              subst (EnqueueRound q item) e (enqueue_round_lem item (rand (suc fuel)) q ns v) in
            let (q', f, put, w) = loop_after_growth fuel q ns v in
            (
              q',
              loops (done true q')
                  (loop-again (suc fuel) q g e ∙ ap (enqueue_loop rand (suc fuel) item) r.1 ∙ f),
              inr (r.0, put, w),
            )
      ]
    where
      not_null : (item == 0) ≡ false
      not_null = ground (arith, ne)
