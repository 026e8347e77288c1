-- ===== src/DataStructures/LockBasedQueue/Deadline.antt =====
-- The deadline of a timed dequeue.
use scal.Prelude.{ℕ, ◌+◌, ◌*◌, ◌^◌, ◌<◌, ◌≡◌, arith}
use scal.DataStructures.LockBasedQueue.{deadline}

-- For microseconds below a million, and a timeout that does not overflow 64 bits in nanoseconds, the
-- deadline lies exactly the timeout after the time of day, and is a proper timespec.
pub deadline_lem :
    (sec usec timeout_ms : ℕ)
    → usec < 1000000
    → usec * 1000 + timeout_ms * 1000000 < 2 ^ 64
    → ((deadline sec usec timeout_ms).tv_nsec < 1000000000)
      × ((deadline sec usec timeout_ms).tv_sec * 1000000000 + (deadline sec usec timeout_ms).tv_nsec
          ≡ sec * 1000000000 + usec * 1000 + timeout_ms * 1000000)
unfolding deadline
deadline_lem sec usec timeout_ms proper fits = ground arith
