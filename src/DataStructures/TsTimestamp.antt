-- ===== src/DataStructures/TsTimestamp.antt =====
-- src/datastructures/ts_timestamp.h: the five kinds of time stamps of the time-stamped queue, stack
-- and deque. A stamp is kept in two words; the kinds that are no interval use the first one only.
-- What the hardware clocks read is an argument. Clocks are uint64_t.
pub mod Order
pub mod Clocks
mod Examples
use scal.Prelude.{
  ℕ, zero, suc, ◌+◌, ◌-◌, ◌^◌, ◌%◌, Bool, true, false, List, [], ◌∷◌, Option, none, some, ltb,
  if◌then◌else◌, replicate, set,
}

-- The array of a stamp: `result[0]` and `result[1]`.
pub record Stamp : Type 0 where
  pub first : ℕ
  pub second : ℕ

abbrev pub uint64_max : ℕ
uint64_max = 2 ^ 64 - 1

-- HardwareTimestamp, AtomicCounterTimestamp and StutteringTimestamp.
unfoldable pub init_sentinel : Stamp → Stamp
init_sentinel r = record r { first = 0 }

unfoldable pub init_top : Stamp → Stamp
init_top r = record r { first = uint64_max }

unfoldable pub is_later : Stamp → Stamp → Bool
is_later timestamp1 timestamp2 = ltb timestamp2.first timestamp1.first

-- HardwareIntervalTimestamp and SimulatedIntervalTimestamp.
unfoldable pub interval_sentinel : Stamp
interval_sentinel = record { first = 0; second = 0 }

unfoldable pub interval_top : Stamp
interval_top = record { first = uint64_max; second = uint64_max }

unfoldable pub interval_is_later : Stamp → Stamp → Bool
interval_is_later timestamp1 timestamp2 = ltb timestamp2.second timestamp1.first

-- The loop that waits, with what `get_hwtime` reads in turn; whether it ends.
unfoldable pub delayed : (wait : ℕ) → List ℕ → Bool
delayed wait [] = false
delayed wait (now ∷ readings) =
    let rest = delayed wait readings in if ltb now wait then rest else true

-- `HardwareIntervalTimestamp::set_timestamp`: the readings before and after the loop are those of
-- `get_hwptime`, and `wait_from` is what `get_hwtime` reads before it.
unfoldable pub set_interval :
    (delay before wait_from : ℕ) → (readings : List ℕ) → (after : ℕ) → Option Stamp
set_interval delay before wait_from readings after =
    if delayed ((wait_from + delay) % 2 ^ 64) readings
    then some (record { first = before; second = after })
    else none

-- `SimulatedIntervalTimestamp::set_timestamp`
unfoldable pub set_simulated : (delay now : ℕ) → Stamp
set_simulated delay now = record { first = now; second = (now + delay) % 2 ^ 64 }

-- `AtomicCounterTimestamp::set_timestamp`: the stamp, and the clock then.
unfoldable pub set_counter : (clock : ℕ) → Stamp → Stamp × ℕ
set_counter clock r = (record r { first = clock }, (clock + 1) % 2 ^ 64)

-- `StutteringTimestamp::initialize`
unfoldable pub initialize : (num_threads : ℕ) → List ℕ
initialize num_threads = replicate num_threads 1

unfoldable pub max : ℕ → ℕ → ℕ
max x y = if ltb y x then x else y

-- The loop over the clocks of all threads.
unfoldable pub latest : (latest_time : ℕ) → List ℕ → ℕ
latest latest_time [] = latest_time
latest latest_time (clock ∷ clocks) = latest (max latest_time clock) clocks

-- `StutteringTimestamp::set_timestamp` of a thread, run without interference.
unfoldable pub set_stuttering : (thread_id : ℕ) → List ℕ → Stamp → Stamp × List ℕ
set_stuttering thread_id clocks r =
    let now = (latest 0 clocks + 1) % 2 ^ 64 in (record r { first = now }, set clocks thread_id now)

-- `StutteringTimestamp::read_time`
unfoldable pub read_stuttering : List ℕ → Stamp → Stamp
read_stuttering clocks r = record r { first = latest 0 clocks }
