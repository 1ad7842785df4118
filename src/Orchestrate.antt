-- ===== src/Orchestrate.antt =====
-- afk_orchestrate/: the durable driver that calls the independent commands in sequence.
pub mod State
pub mod Receipts
pub mod Commands
pub mod Validation
pub mod Selected
pub mod Step
pub mod Run
pub mod Moves
pub mod Reach
pub mod Budget
pub mod History
pub mod Current
pub mod Ready
mod Tests
