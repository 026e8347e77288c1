-- ===== src/Util/Barrier/Examples.antt =====
-- Two threads at a barrier.
use scal.Prelude.{ℕ, ◌+◌, ◌*◌, ◌<◌, ◌≤◌, ◌≡◌, ◌↔◌, true, refl, arith}
use scal.Util.Barrier.{
  next_round, wait_answer, SpinningBarrier, new_barrier, arrived, arrive, Reached, fresh, turn,
}
use scal.Util.Barrier.Waiting.{waiting-leaves_iff}

second_round : next_round 2 3 ≡ 4
unfolding next_round
second_round = refl

abbrev both_arrived : SpinningBarrier
both_arrived = arrived 1 (arrived 0 new_barrier)

both_arrived-Reached : Reached 2 both_arrived
both_arrived-Reached = turn (turn fresh (arrive 0 (omega arith) refl)) (arrive 1 (omega arith) refl)

waiting-leaves_iff_example :
    ((next_round 2 0 ≤ both_arrived.cnt)
      ↔ ((u : ℕ) → u < 2 → both_arrived.waits 0 ≤ both_arrived.waits u))
    × ((wait_answer 2 0 ≡ true) ↔ (0 + 1 ≡ both_arrived.waits 0 * 2))
waiting-leaves_iff_example =
    waiting-leaves_iff 2 (omega arith) both_arrived both_arrived-Reached (omega arith) 0 0
      (omega arith) refl
