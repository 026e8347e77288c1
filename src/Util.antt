-- ===== src/Util.antt =====
-- util/: the parts that the data structures are built from.
pub mod AtomicValue
pub mod Random
pub mod Malloc
pub mod Barrier
