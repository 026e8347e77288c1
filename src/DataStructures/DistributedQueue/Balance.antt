-- ===== src/DataStructures/DistributedQueue/Balance.antt =====
-- Where the balancers send an operation.
use scal.Prelude.{ℕ, ◌+◌, ◌%◌, ◌^◌, ◌<◌, ◌≡◌, Bool, true, false, arith, ap, sym, ◌∙◌, update_self}
use native.Mathlib.Nat.{mod-lt, mod-add-mod, mod-eq_of_lt}
use scal.DataStructures.DistributedQueue.{
  RoundRobin, balance_id, balance_random, balance_round_robin,
}

-- With at least one queue, each balancer picks one that there is.
pub balance-lt :
    (n thread_id random : ℕ) (enqueue : Bool) (b : RoundRobin)
    → 0 < n
    → (balance_id thread_id n < n)
      × (balance_random random n < n)
      × ((balance_round_robin thread_id n enqueue b).0 < n)
unfolding balance_id balance_random balance_round_robin
balance-lt n thread_id random true b pos =
    (ground (arith, mod-lt thread_id pos), ground (arith, mod-lt random pos), mod-lt _ pos)
balance-lt n thread_id random false b pos =
    (ground (arith, mod-lt thread_id pos), ground (arith, mod-lt random pos), mod-lt _ pos)

-- Two enqueues of one partition in a row go to one queue and the next one, as long as the counter
-- does not wrap around; and a dequeue between them makes no difference.
pub balance_round_robin-next :
    (n i j k : ℕ) (b : RoundRobin)
    → i % b.partitions ≡ j % b.partitions
    → b.enqueue_rrs (i % b.partitions) + 1 < 2 ^ 64
    → let first = balance_round_robin i n true b in
      let between = balance_round_robin k n false first.1 in
      let second = balance_round_robin j n true between.1 in second.0 ≡ (first.0 + 1) % n
unfolding balance_round_robin
balance_round_robin-next n i j k b same fits =
    rw
      (
        sym same,
        update_self b.enqueue_rrs (i % b.partitions)
            ((b.enqueue_rrs (i % b.partitions) + 1) % 2 ^ 64),
      )
      (ap (λ c. c % n) (mod-eq_of_lt fits)
        ∙ sym (mod-add-mod (b.enqueue_rrs (i % b.partitions)) n 1))
