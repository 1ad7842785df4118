-- ===== src/Records/Review.antt =====
-- Reviews, their findings, and how the invocations of a Review make its aggregate: afk_records/review.py.
pub mod Finding
pub mod Receipts
pub mod Projection
pub mod Sources
pub mod Traced
pub mod Provenance
