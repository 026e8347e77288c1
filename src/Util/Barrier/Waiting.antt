-- ===== src/Util/Barrier/Waiting.antt =====
-- When a thread may leave the barrier.
use scal.Prelude.{
  ℕ, zero, suc, ◌+◌, ◌-◌, ◌*◌, ◌%◌, ◌^◌, ◌<◌, ◌≤◌, ◌≡◌, ◌↔◌, true, arith, refl, sym, ap, ◌∙◌, subst,
  ==_iff, ℕ_discrete,
}
use scal.Util.Barrier.{
  next_round, wait_answer, waiting, SpinningBarrier, new_barrier, arrive, leave, Reached, fresh,
  turn,
}
use scal.Util.Barrier.Totals.{total, total-update, total-ge}
use native.Mathlib.Nat.{suc-mul, mul_comm, mul-le-mul_right}
use scal.Util.Barrier.Rounds.{
  IsBarrier, IsSmall, outside-waiting, waits-next, leave-IsBarrier, arrive-IsBarrier,
}

new_barrier-IsBarrier : (num : ℕ) → 0 < num → IsBarrier num new_barrier
new_barrier-IsBarrier num pos = record {
  counts = sym (nothing num);
  rounds = λ k u le lt. elim (ℕ_discrete k 0) [
    | yes e ↦ omega (arith, e)
    | no ne ↦
        absurd (omega (arith, le, mul-le-mul_right {m = 1} {n = k} num (omega (arith, ne)), pos))
  ];
  finished = λ i lt out. omega arith;
  begun = λ i old lt at. absurd (outside-waiting at);
}
  where
    nothing : (n : ℕ) → total n (λ _. 0) ≡ 0
    nothing zero = refl
    nothing (suc n) = omega (arith, nothing n)

module _ (num : ℕ) (pos : 0 < num) where
  Reached-IsBarrier : (b : SpinningBarrier) → Reached num b → IsSmall num b → IsBarrier num b
  Reached-IsBarrier b fresh small = new_barrier-IsBarrier num pos
  Reached-IsBarrier b (turn {b = a} r (arrive i lt at)) small =
      let v = Reached-IsBarrier a r (omega (arith, small, total-update num i a.waits lt)) in
      arrive-IsBarrier num pos a v i lt at small
  Reached-IsBarrier b (turn {b = a} r (leave i {old} lt at le)) small =
      leave-IsBarrier num pos a (Reached-IsBarrier a r small) i old lt at le small

  -- In every reachable state of at least one thread in which the counter is not about to wrap around:
  -- the loop of a waiting thread may end exactly when each of the threads has begun as many waits as
  -- it has, and its answer is true exactly if its ticket is the last one of that round.
  pub waiting-leaves_iff :
      (b : SpinningBarrier)
      → Reached num b
      → total num b.waits + num ≤ 2 ^ 64
      → (i old : ℕ) → i < num
      → b.place i ≡ waiting old
      → ((next_round num old ≤ b.cnt) ↔ ((u : ℕ) → u < num → b.waits i ≤ b.waits u))
        × ((wait_answer num old ≡ true) ↔ (old + 1 ≡ b.waits i * num))
  unfolding wait_answer
  waiting-leaves_iff b r small i old lt at =
      let v = Reached-IsBarrier b r small in
      let next = waits-next num pos b v i old lt at small in
      (
        (
          λ le u less. v.rounds (b.waits i) u (subst (λ m. m ≤ b.cnt) next le) less,
          λ all. omega (
            arith,
            next,
            total-ge num (b.waits i) b.waits all,
            mul_comm num (b.waits i),
            v.counts,
          ),
        ),
        (
          λ yes_last. omega (
            arith,
            next,
            in_round v,
            before_next v next,
            (==_iff old ((next_round num old + (2 ^ 64 - 1)) % 2 ^ 64)).0 yes_last,
          ),
          λ last.
              (==_iff old ((next_round num old + (2 ^ 64 - 1)) % 2 ^ 64)).1
                (omega (arith, next, last, before_next v next)),
        ),
      )
    where
      in_round : IsBarrier num b → old < b.waits i * num
      in_round v =
          let ((c, w, lo, hi), before) = v.begun i old lt at in
          subst (λ m. old < m * num) (sym w) hi

      -- The subtraction of one does not wrap around.
      before_next :
          IsBarrier num b
          → next_round num old ≡ b.waits i * num
          → (next_round num old + (2 ^ 64 - 1)) % 2 ^ 64 + 1 ≡ next_round num old
      before_next v next =
          let ((c, w, lo, hi), before) = v.begun i old lt at in
          let product : b.waits i * num ≡ c * num + num = ap (λ m. m * num) w ∙ suc-mul c num in
          omega (arith, next, product, in_round v, lo, before, v.counts, small)
