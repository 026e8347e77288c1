-- ===== src/Util/AtomicValue.antt =====
-- src/util/atomic_value64_base.h, atomic_value64_offset.h, atomic_value64_no_offset.h and
-- atomic_value128.h: a value and an ABA counter packed into one word that is exchanged by
-- compare-and-swap. A word is a number below 2 ^ 64 or 2 ^ 128. `x & (2 ^ k - 1)` is `x % 2 ^ k`,
-- a mask that clears the low k bits is `x / 2 ^ k * 2 ^ k`, and an `|` whose operands have no
-- common bit is `+`.
pub mod Base
pub mod Offset
pub mod NoOffset
pub mod Wide
pub mod Layout
pub mod Retry
mod Examples
