-- ===== src/Pr/Jobs.antt =====
-- The jobs of afk_pr/jobs.py.
pub mod Status
pub mod Store
pub mod Creation
pub mod Publish
pub mod Worker
pub mod Work
pub mod Quiet
pub mod Kept
pub mod Stable
pub mod Runs
pub mod Child
pub mod Retry
pub mod Start
pub mod Launched
pub mod Recorded
pub mod Started
pub mod Sealed
