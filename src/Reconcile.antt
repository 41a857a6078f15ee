-- ===== src/Reconcile.antt =====
-- agent/reviewer_reconcile.py: the findings of a review brought in line with the threads on GitHub.
pub mod Marker
pub mod Replies
pub mod Match
pub mod Sync
pub mod Latest
pub mod Run
pub mod Kept
pub mod Stored
pub mod Status
mod Tests
