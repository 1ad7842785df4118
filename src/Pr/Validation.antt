-- ===== src/Pr/Validation.antt =====
-- afk_pr/validation.py: the contract of a job's fixtures, and whether retained fixtures answer it.
pub mod Contract
pub mod Evidence
pub mod Reuse
pub mod Soundness
