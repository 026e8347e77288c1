-- ===== src/DataStructures/TreiberStack/Invariant.antt =====
-- The invariant of the Treiber stack: the nodes in the stack are linked in order, a node that is
-- being pushed belongs to its thread alone, and a node that has been shared never changes again.
mod Defs
mod Moves
pub use Defs.*
pub use Moves.{Move-Inv, unused, tail}
unfoldable pub use Moves.{stack_after}
