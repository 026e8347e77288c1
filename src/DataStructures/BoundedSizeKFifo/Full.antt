-- ===== src/DataStructures/BoundedSizeKFifo/Full.antt =====
-- `queue_full` compares a wrapped tail with a head that is never wrapped. Once the head has passed
-- the end of the array it reports no queue as full, and `enqueue` on a full queue does not return.
use scal.Prelude.{
  Bool-cases, ℕ, zero, suc, ◌+◌, ◌%◌, ◌^◌, ◌≤◌, ◌<◌, ◌≡◌, ◌≢◌, true, false, none, arith, Cell, same,
  Option-cases, inl, inr, refl, ap, ◌∙◌, sym,
}
use native.Mathlib.Nat.{mod-lt}
use scal.DataStructures.BoundedSizeKFifo.{
  KFifo, find_index, advance_tail, queue_full, enqueue_round, enqueue_loop, enqueue, again,
  out_of_fuel, wanted,
}
use scal.DataStructures.BoundedSizeKFifo.Segment.{find_index-some, segment_slot}

-- A queue with an item in every slot whose head has gone round the array at least once.
pub record IsFullAndWrapped (q : KFifo) : Type 0 where
  pub slots : 0 < q.queue_size
  pub wrapped : q.queue_size ≤ q.head.value
  pub taken : (i : ℕ) → i < q.queue_size → (q.queue i).value ≢ 0

-- Past the first round of the array no queue is reported as full.
pub queue_full_wrapped :
    (q : KFifo) (tail_old : ℕ)
    → 0 < q.queue_size
    → q.queue_size ≤ q.head.value
    → queue_full q q.head.value tail_old ≡ false
unfolding queue_full
queue_full_wrapped q tail_old pos h =
    ground (arith, mod-lt ((tail_old + q.k) % 2 ^ 64) {m = q.queue_size} pos)

wanted_empty : (c : Cell) → wanted true c ≡ true → c.value ≡ 0
wanted_empty c h = ground arith

find_none :
    (q : KFifo) (random start : ℕ) → IsFullAndWrapped q → find_index q random start true ≡ none
find_none q random start f = elim (Option-cases (find_index q random start true)) [
  | inl e ↦ e
  | inr ((i, c), e) ↦
      let (d, lt, at, old, w) = find_index-some q random start true e in
      let b : segment_slot q start d < q.queue_size = mod-lt ((start + d) % 2 ^ 64) f.slots in
      let t = f.taken i (rw at b) in absurd (t (ap Cell.value (sym old) ∙ wanted_empty c w))
]

-- A round on such a queue moves the tail on, and the queue stays such.
stuck_round :
    (item random : ℕ) (q : KFifo)
    → IsFullAndWrapped q
    → enqueue_round item random q ≡ again (advance_tail q q.tail)
unfolding enqueue_round
stuck_round item random q f =
    ground (
      arith,
      find_none q random q.tail.value f,
      queue_full_wrapped q q.tail.value f.slots f.wrapped,
    )

advance_tail-IsFullAndWrapped :
    (q : KFifo) → IsFullAndWrapped q → IsFullAndWrapped (advance_tail q q.tail)
unfolding advance_tail
advance_tail-IsFullAndWrapped q f = elim (Bool-cases (same q.tail q.tail)) [
  | inl e ↦ rw e (record { slots = f.slots; wrapped = f.wrapped; taken = f.taken })
  | inr e ↦ rw e f
]

enqueue_loop_stuck :
    (rand : ℕ → ℕ) (item fuel : ℕ) (q : KFifo)
    → IsFullAndWrapped q
    → enqueue_loop rand item fuel q ≡ out_of_fuel
unfolding enqueue_loop
enqueue_loop_stuck rand item zero q f = refl
enqueue_loop_stuck rand item (suc fuel) q f =
    rw (stuck_round item (rand fuel) q f, enqueue_loop)
      (enqueue_loop_stuck rand item fuel (advance_tail q q.tail)
        (advance_tail-IsFullAndWrapped q f))

-- On a queue that is full after its head has gone round the array, `enqueue` of an item, run alone,
-- does not return after any number of rounds: it neither stores the item nor answers false.
pub enqueue_stuck :
    (rand : ℕ → ℕ) (item fuel : ℕ) (q : KFifo)
    → item ≢ 0
    → IsFullAndWrapped q
    → enqueue rand item fuel q ≡ out_of_fuel
unfolding enqueue
enqueue_stuck rand item fuel q ne f = ground (arith, enqueue_loop_stuck rand item fuel q f)
