-- ===== src/DataStructures/MsQueue/Invariant.antt =====
-- The invariant of the Michael-Scott queue: the nodes ever linked form one growing list, in which
-- head and tail only move forward and never pass each other.
mod Defs
mod Growth
mod Threads
pub use Defs.*
pub use Growth.{at_head, at_end, own-IsFresh, append}
unfoldable pub use Growth.{log_after}
pub use Threads.{Move-Inv}
