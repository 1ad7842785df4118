-- ===== src/Records/Continuation.antt =====
-- The continuations of a Coordinator Run: afk_records/continuation.py.
pub mod Exhausted
pub mod Sums
pub mod Lineage
