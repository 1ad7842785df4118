-- ===== src/Records.antt =====
-- The retained records of afk_records/: the validators that decide which JSON is one.
pub mod Coordinator
pub mod Continuation
pub mod Plan
pub mod Review
pub mod Request
mod Tests
