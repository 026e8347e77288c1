-- ===== src/DataStructures/DistributedQueue.antt =====
-- src/datastructures/distributed_queue.h, with the balancers: a pool over an array of backends.
-- `put` goes to a backend that a balancer picks. `get` tries all backends, and answers that the pool
-- is empty only after it has seen the state of every backend unchanged since it was found empty. One
-- thread runs step by step; before each access to a backend the other threads may act on all of
-- them.
pub mod Ring
pub mod FirstLoop
pub mod SecondLoop
pub mod Observed
pub mod Stacks
pub mod StackLaws
pub mod Balance
mod Examples
use scal.Prelude.{
  ℕ, zero, suc, ◌+◌, ◌*◌, ◌/◌, ◌%◌, ◌^◌, Bool, Option, none, some, ◌==◌, if◌then◌else◌, update, not,
}

-- The operations of a backend; states are read as one word, an AtomicRaw.
pub record Backend : Type 1 where
  pub State : Type 0
  pub put : ℕ → State → Bool × State
  pub get_return_empty_state : State → Option ℕ × (ℕ × State)
  pub empty_state : State → ℕ

-- How a pass over the states ends: the pool is empty, or another round begins at an index.
pub data Verdict : Type 0 where
  empty : Verdict
  again : (start : ℕ) → Verdict

pub data Outcome : Type 0 where
  got : (item : ℕ) → Outcome
  found_empty : Outcome
  out_of_fuel : Outcome

module _ (backend : Backend) where
  -- `tails` is the row of the thread that runs; the clock counts its accesses.
  pub record DistributedQueue : Type 0 where
    pub backends : ℕ → backend.State
    pub tails : ℕ → ℕ
    pub clock : ℕ

  unfoldable pub put : (index item : ℕ) → DistributedQueue → Bool × DistributedQueue
  put index item q =
      let (ok, s) = backend.put item (q.backends index) in
      (ok, record q { backends = update q.backends index s })

  module _ (interference : ℕ → (ℕ → backend.State) → ℕ → backend.State) (num_queues : ℕ) where
    -- The other threads act.
    unfoldable pub tick : DistributedQueue → DistributedQueue
    tick q = record q { backends = interference q.clock q.backends; clock = suc q.clock }

    -- `get_return_empty_state` of one backend, which writes the thread's row.
    unfoldable pub try_one : ℕ → DistributedQueue → Option ℕ × DistributedQueue
    try_one index q =
        let (item, (raw, s)) = backend.get_return_empty_state (q.backends index) in
        (item, record q { backends = update q.backends index s; tails = update q.tails index raw })

    -- The first loop, from i on, `left` more times.
    unfoldable pub try_all : (start i left : ℕ) → DistributedQueue → Option ℕ × DistributedQueue
    try_all start i zero q = (none, q)
    try_all start i (suc left) q =
        let (item, q') = try_one ((start + i) % num_queues) (tick q) in
        let rest = try_all start (suc i) left q' in
        elim item [ none ↦ rest | some x ↦ (some x, q') ]

    -- The second loop.
    unfoldable pub check_all : (start i left : ℕ) → DistributedQueue → Verdict × DistributedQueue
    check_all start i zero q = (again start, q)
    check_all start i (suc left) q =
        let index = (start + i) % num_queues in
        let q' = tick q in
        let rest = check_all start (suc i) left q' in
        if not (backend.empty_state (q'.backends index) == q'.tails index)
        then (again index, q')
        else if (index + 1) % num_queues == start
        then (empty, q')
        else rest

    unfoldable pub get : (fuel start : ℕ) → DistributedQueue → Outcome × DistributedQueue
    get zero start q = (out_of_fuel, q)
    get (suc fuel) start q =
        let (item, q₁) = try_all start 0 num_queues q in
        let (verdict, q₂) = check_all start 0 num_queues q₁ in
        elim item [
          | some x ↦ (got x, q₁)
          | none ↦ elim verdict [ empty ↦ (found_empty, q₂) | again next ↦ get fuel next q₂ ]
        ]

-- `BalancerId::get`
unfoldable pub balance_id : (thread_id num_queues : ℕ) → ℕ
balance_id thread_id num_queues = if num_queues == 1 then 0 else thread_id % num_queues

-- `Balancer1Random::get`, with the random number that `hwrand` or `pseudorand` returns.
unfoldable pub balance_random : (random num_queues : ℕ) → ℕ
balance_random random num_queues = if num_queues == 1 then 0 else random % num_queues

-- The counters of `BalancerPartitionedRoundRobin`, one for each partition.
pub record RoundRobin : Type 0 where
  pub partitions : ℕ
  pub enqueue_rrs : ℕ → ℕ
  pub dequeue_rrs : ℕ → ℕ

unfoldable pub new_round_robin : (partitions num_queues : ℕ) → RoundRobin
new_round_robin partitions num_queues = record {
  partitions = partitions;
  enqueue_rrs = λ i. num_queues / partitions * i;
  dequeue_rrs = λ i. num_queues / partitions * i;
}

-- A counter is read and increased in one step.
unfoldable pub balance_round_robin : (thread_id num_queues : ℕ) → Bool → RoundRobin → ℕ × RoundRobin
balance_round_robin thread_id num_queues enqueue b =
    let p = thread_id % b.partitions in
    if enqueue
    then (
      b.enqueue_rrs p % num_queues,
      record b { enqueue_rrs = update b.enqueue_rrs p ((b.enqueue_rrs p + 1) % 2 ^ 64) },
    )
    else (
      b.dequeue_rrs p % num_queues,
      record b { dequeue_rrs = update b.dequeue_rrs p ((b.dequeue_rrs p + 1) % 2 ^ 64) },
    )
