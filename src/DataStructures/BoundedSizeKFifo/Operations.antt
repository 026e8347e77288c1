-- ===== src/DataStructures/BoundedSizeKFifo/Operations.antt =====
-- What a round of `enqueue` and of `dequeue` does when no other thread interferes.
use scal.Prelude.{
  ◌+◌, ◌%◌, ◌^◌, ◌⊎◌, ◌↔◌, none-some, some-inj, false-true, for_from, for_from-some, for_from-none,
  Bool-cases, ==_refl, if◌then◌else◌, ◌&&◌, ℕ, ◌<◌, ◌≡◌, ◌≢◌, Bool, true, false, Option, none, some,
  arith, Cell, same, update, Option-cases, inl, inr, refl, ◌∙◌, sym, ◌==◌, next_aba, same_iff,
}
use scal.DataStructures.BoundedSizeKFifo.{
  KFifo, find_index, advance_tail, advance_head, queue_full, enqueue_round, dequeue_round, Round,
  again, returns, wanted, emptied, segment_not_empty, committed, cas_slot, taken_slot,
}
use scal.DataStructures.BoundedSizeKFifo.Segment.{find_index-some, find_index-none, segment_slot}
use scal.DataStructures.BoundedSizeKFifo.Commit.{committed_quiet, queue-committed_quiet}

-- An item x was taken from a slot of the segment at `start`: the slot is empty now, with its
-- counter moved on, and every other slot is as it was.
pub record Took (q : KFifo) (start x : ℕ) (q' : KFifo) : Type 0 where
  pub place : ℕ
  pub near : place < q.k
  pub held : (q.queue (segment_slot q start place)).value ≡ x
  pub real : x ≢ 0
  pub slots :
      q'.queue
      ≡ update q.queue (segment_slot q start place) (emptied (q.queue (segment_slot q start place)))

-- The word that stands at the segment behind the one of c.
abbrev pub next_segment : KFifo → Cell → Cell
next_segment q c = record { value = (c.value + q.k) % 2 ^ 64; aba = next_aba c.aba }

-- What `dequeue` may do in a round.
abbrev pub DequeueRound : KFifo → Round (Option ℕ) → Type 0
DequeueRound q (returns (some x) q') = Took q q.head.value x q'
DequeueRound q (returns none q') =
    (q' ≡ q)
    × (q.head.value ≡ q.tail.value)
    × ((d : ℕ) → d < q.k → (q.queue (segment_slot q q.head.value d)).value ≡ 0)
DequeueRound q (again q') =
    (q' ≡ record q { head = next_segment q q.head })
    × (q.head.value ≢ q.tail.value)
    × ((d : ℕ) → d < q.k → (q.queue (segment_slot q q.head.value d)).value ≡ 0)

wanted_item : (c : Cell) → wanted false c ≡ true → c.value ≢ 0
wanted_item c h = ground arith

unwanted_item : (c : Cell) → wanted false c ≡ false → c.value ≡ 0
unwanted_item c h = ground arith

queue-advance_tail : (q : KFifo) (t : Cell) → (advance_tail q t).queue ≡ q.queue
unfolding advance_tail
queue-advance_tail q t = ground arith

moved :
    (q : KFifo)
    → (if q.head.value == q.tail.value then advance_tail q q.tail else q).queue ≡ q.queue
moved q = ground (arith, queue-advance_tail q q.tail)

-- The exchange meets the word that was found.
took :
    (q q' : KFifo) (d i : ℕ) (c : Cell)
    → q'.queue ≡ q.queue
    → d < q.k
    → i ≡ segment_slot q q.head.value d
    → c ≡ q.queue i
    → c.value ≢ 0
    → DequeueRound q (
        let (won, q'') = cas_slot q' i c (emptied c) in
        if won then returns (some c.value) q'' else again q'')
took q q' d i c unmoved lt at old real = rw (hit) (record {
  place = d;
  near = lt;
  held = rw (old, at) refl;
  real = real;
  slots = rw (unmoved, old, at) refl;
})
  where
    hit : same (q'.queue i) c ≡ true
    hit = (same_iff (q'.queue i) c).1 (rw (unmoved, ← old))

head_moves : (q : KFifo) → advance_head q q.head ≡ record q { head = next_segment q q.head }
unfolding advance_head
head_moves q = rw ((same_iff q.head q.head).1 refl) refl

tail_moves : (q : KFifo) → advance_tail q q.tail ≡ record q { tail = next_segment q q.tail }
unfolding advance_tail
tail_moves q = rw ((same_iff q.tail q.tail).1 refl) refl

-- No item was found.
passed :
    (q : KFifo)
    → ((d : ℕ) → d < q.k → (q.queue (segment_slot q q.head.value d)).value ≡ 0)
    → DequeueRound q (
        if q.head.value == q.tail.value && q.tail.value == q.tail.value
        then returns none q
        else again (advance_head q q.head))
passed q none_found = elim (Bool-cases (q.head.value == q.tail.value)) [
  | inl e ↦ rw (e, ==_refl q.tail.value) (refl, ground arith, none_found)
  | inr e ↦ rw (e, head_moves q) (refl, ground arith, none_found)
]

-- A round of `dequeue` returns an item of the head's segment if there is one; it answers empty only
-- if that segment is empty and is also the tail's, and then changes nothing; and it goes round again
-- only past an empty segment that is not the tail's, having moved the head on by one segment and
-- changed nothing else.
pub dequeue_round-outcome : (random : ℕ) (q : KFifo) → DequeueRound q (dequeue_round random q)
unfolding dequeue_round
dequeue_round-outcome random q = elim (Option-cases (find_index q random q.head.value false)) [
  | inl e ↦
      rw (e, dequeue_round)
        (passed q (λ d lt.
          unwanted_item (q.queue (segment_slot q q.head.value d))
            (find_index-none q random q.head.value false e d lt)))
  | inr ((i, c), e) ↦
      let (d, lt, at, old, w) = find_index-some q random q.head.value false e in
      rw (e, dequeue_round) (took q _ d i c (moved q) lt at old (wanted_item c w))
]

-- The item was put in an empty slot of the tail's segment, and every other slot is as it was.
pub record Put (q : KFifo) (item : ℕ) (q' : KFifo) : Type 0 where
  pub place : ℕ
  pub near : place < q.k
  pub free : (q.queue (segment_slot q q.tail.value place)).value ≡ 0
  pub slots :
      q'.queue
      ≡ update q.queue (segment_slot q q.tail.value place) (record {
        value = item;
        aba = next_aba (q.queue (segment_slot q q.tail.value place)).aba;
      })

-- Every slot of the tail's segment holds an item.
abbrev pub TailFull : KFifo → Type 0
TailFull q = (d : ℕ) → d < q.k → (q.queue (segment_slot q q.tail.value d)).value ≢ 0

-- The segment of the head holds an item, or it holds none.
abbrev pub HeadHolds : KFifo → Type 0
HeadHolds q = (d : ℕ) × (d < q.k) × ((q.queue (segment_slot q q.head.value d)).value ≢ 0)

abbrev pub HeadBare : KFifo → Type 0
HeadBare q = (d : ℕ) → d < q.k → (q.queue (segment_slot q q.head.value d)).value ≡ 0

-- The segment behind the tail's is the one that the head's word names.
abbrev pub MeetsHead : KFifo → Type 0
MeetsHead q = (q.tail.value + q.k) % 2 ^ 64 % q.queue_size ≡ q.head.value

-- What `enqueue` may do in a round.
abbrev pub EnqueueRound : KFifo → ℕ → Round Bool → Type 0
EnqueueRound q item (returns true q') = Put q item q'
EnqueueRound q item (returns false q') = (q' ≡ q) × TailFull q × MeetsHead q × HeadHolds q
EnqueueRound q item (again q') =
    TailFull q
    × (((¬ MeetsHead q) × (q' ≡ record q { tail = next_segment q q.tail }))
        ⊎ (MeetsHead q
            × HeadBare q
            × (q' ≡ record q { head = next_segment q q.head; tail = next_segment q q.tail })))

wanted_free : (c : Cell) → wanted true c ≡ true → c.value ≡ 0
wanted_free c h = ground arith

unwanted_free : (c : Cell) → wanted true c ≡ false → c.value ≢ 0
unwanted_free c h = ground arith

full-MeetsHead : (q : KFifo) → (queue_full q q.head.value q.tail.value ≡ true) ↔ MeetsHead q
unfolding queue_full
full-MeetsHead q = (λ e. ground (arith, e), λ e. ground (arith, e))

bare_slot : (c : Cell) → (if c.value == 0 then none else some true) ≡ none → c.value ≡ 0
bare_slot c e = ground (arith, e)

held_slot :
    (c : Cell) (b : Bool)
    → (if c.value == 0 then none else some true) ≡ some b
    → (c.value ≢ 0) × (b ≡ true)
held_slot c b e = elim (Bool-cases (c.value == 0)) [
  | inl z ↦ absurd (none-some (rw z at e))
  | inr s ↦ (ground (arith, s), sym (some-inj (rw s at e)))
]

module _ (q : KFifo) where
  abbrev loop : Option Bool
  loop = for_from (taken_slot q q.head.value) 0 q.k

  not_empty-some :
      (b : Bool) → loop ≡ some b → (segment_not_empty q q.head.value ≡ true) × HeadHolds q
  unfolding segment_not_empty
  not_empty-some b e =
      let (d, lo, hi, f) = for_from-some (taken_slot q q.head.value) 0 q.k e in
      let (held, is_true) = held_slot (q.queue (segment_slot q q.head.value d)) b f in
      (rw (e, segment_not_empty) is_true, (d, omega (arith, hi), held))

  not_empty-none : loop ≡ none → (segment_not_empty q q.head.value ≡ false) × HeadBare q
  unfolding segment_not_empty
  not_empty-none e = (
    rw (e, segment_not_empty) refl,
    λ d lt.
        bare_slot (q.queue (segment_slot q q.head.value d))
          (for_from-none (taken_slot q q.head.value) 0 q.k e d (omega arith) (omega (arith, lt))),
  )

-- No slot was free.
refused :
    (q : KFifo) (item : ℕ)
    → TailFull q
    → EnqueueRound q item (
        if queue_full q q.head.value q.tail.value
        then (if segment_not_empty q q.head.value && q.head.value == q.head.value
            then returns false q
            else again (advance_tail (advance_head q q.head) q.tail))
        else again (advance_tail q q.tail))
refused q item full = elim (Bool-cases (queue_full q q.head.value q.tail.value)) [
  | inl e ↦ elim (Option-cases (loop q)) [
    | inr (b, held) ↦
        let (s, holds) = not_empty-some q b held in
        rw (e, s, ==_refl q.head.value) (refl, full, (full-MeetsHead q).0 e, holds)
    | inl nothing ↦
        let (s, bare) = not_empty-none q nothing in
        let moved_head = record q { head = next_segment q q.head } in
        rw (e, s, head_moves q, tail_moves moved_head)
          (full, inr ((full-MeetsHead q).0 e, bare, refl))
  ]
  | inr e ↦
      rw (e, tail_moves q)
        (full, inl (λ meets. false-true (sym e ∙ (full-MeetsHead q).1 meets), refl))
]

put :
    (q : KFifo) (item d i : ℕ) (c : Cell)
    → d < q.k
    → i ≡ segment_slot q q.tail.value d
    → c ≡ q.queue i
    → c.value ≡ 0
    → let newcp : Cell = record { value = item; aba = next_aba c.aba } in
      EnqueueRound q item (
        let (won, q') = cas_slot q i c newcp in
        let (done, q'') = committed q' q.tail.value newcp i in
        if won then (if done then returns true q'' else again q'') else again q')
put q item d i c lt at old free =
    rw (hit, committed_quiet stored newcp i)
      (record {
        place = d;
        near = lt;
        free = rw (← at, ← old) free;
        slots = queue-committed_quiet stored newcp i ∙ rw (old, at) refl;
      })
  where
    newcp : Cell
    newcp = record { value = item; aba = next_aba c.aba }

    stored : KFifo
    stored = record q { queue = update q.queue i newcp }

    hit : same (q.queue i) c ≡ true
    hit = (same_iff (q.queue i) c).1 (sym old)

-- A round of `enqueue` puts the item in an empty slot of the tail's segment if there is one, and
-- returns true. If that segment is full, it returns false, and changes nothing, when the segment
-- behind the tail's is the one at the head's word and holds an item; when it holds none, head and tail
-- both move on by one segment; and otherwise the tail alone does. After a move it goes round again.
pub enqueue_round-outcome :
    (item random : ℕ) (q : KFifo) → EnqueueRound q item (enqueue_round item random q)
unfolding enqueue_round
enqueue_round-outcome item random q = elim (Option-cases (find_index q random q.tail.value true)) [
  | inl e ↦
      rw (e, enqueue_round)
        (refused q item (λ d lt.
          unwanted_free (q.queue (segment_slot q q.tail.value d))
            (find_index-none q random q.tail.value true e d lt)))
  | inr ((i, c), e) ↦
      let (d, lt, at, old, w) = find_index-some q random q.tail.value true e in
      rw (e, enqueue_round) (put q item d i c lt at old (wanted_free c w))
]
