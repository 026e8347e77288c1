-- ===== src/Util/Barrier.antt =====
-- src/util/barrier.h: the barrier at which `num` threads wait for each other. A step is one access to
-- the shared counter: the fetch-and-add of an arrival, or a read that ends the loop; reads that go on
-- change nothing. The number of waits that a thread has begun is a history. The counter and the
-- tickets are uint64_t.
pub mod Totals
pub mod Rounds
pub mod Waiting
mod Examples
use scal.Prelude.{ℕ, suc, ◌+◌, ◌-◌, ◌*◌, ◌/◌, ◌%◌, ◌^◌, ◌<◌, ◌≤◌, ◌≡◌, Bool, ◌==◌, update}

-- `next`, from `old`
unfoldable pub next_round : (num old : ℕ) → ℕ
next_round num old = (old / num * num + num) % 2 ^ 64

-- What `wait` returns: whether `old == next - 1`.
unfoldable pub wait_answer : (num old : ℕ) → Bool
wait_answer num old = old == (next_round num old + (2 ^ 64 - 1)) % 2 ^ 64

-- Where a thread stands: outside of `wait`, or in its loop.
pub data Place : Type 0 where
  outside : Place
  waiting : (old : ℕ) → Place

pub record SpinningBarrier : Type 0 where
  pub cnt : ℕ
  pub place : ℕ → Place
  pub waits : ℕ → ℕ

abbrev pub new_barrier : SpinningBarrier
new_barrier = record { cnt = 0; place = λ _. outside; waits = λ _. 0 }

abbrev pub arrived : ℕ → SpinningBarrier → SpinningBarrier
arrived i b = record {
  cnt = (b.cnt + 1) % 2 ^ 64;
  place = update b.place i (waiting b.cnt);
  waits = update b.waits i (suc (b.waits i));
}

abbrev pub left : ℕ → SpinningBarrier → SpinningBarrier
left i b = record b { place = update b.place i outside }

pub data Turn (num : ℕ) (b : SpinningBarrier) : SpinningBarrier → Type 0 where
  arrive : (i : ℕ) → i < num → b.place i ≡ outside → Turn num b (arrived i b)
  leave :
      (i : ℕ) {old : ℕ}
      → i < num
      → b.place i ≡ waiting old
      → next_round num old ≤ b.cnt
      → Turn num b (left i b)

pub data Reached (num : ℕ) : SpinningBarrier → Type 0 where
  fresh : Reached num new_barrier
  turn : {b c : SpinningBarrier} → Reached num b → Turn num b c → Reached num c
