-- ===== src/Records/Coordinator.antt =====
-- afk_records/coordinator.py: the checkpoint of a Coordinator run, its history and its terminal output.
pub mod Topology
pub mod Invocation
pub mod Sources
pub mod Terminal
pub mod Checkpoint
pub mod Output
pub mod Run
pub mod Valid
pub mod Walk
pub mod Finds
pub mod Inputs
pub mod Progress
pub mod Completed
pub mod Stands
pub mod Checks
pub mod Sound
