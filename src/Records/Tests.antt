-- ===== src/Records/Tests.antt =====
-- Tests of the retained records of afk_records.
mod Run
mod Children
mod Planned
mod Routed
mod Reviewed
