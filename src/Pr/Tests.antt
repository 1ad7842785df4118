-- ===== src/Pr/Tests.antt =====
-- Tests of the components of afk_pr.
mod Decide
mod Finish
mod Reuse
mod Jobs
mod Creation
mod Submit
