-- ===== src/Pr.antt =====
-- afk_pr/: the independent commands on a pull request and their retained jobs.
pub mod Identity
pub mod ReviewResult
pub mod Decision
pub mod Folder
pub mod Jobs
pub mod Validation
pub mod Actions
pub mod Finish
mod Tests
