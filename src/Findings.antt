-- ===== src/Findings.antt =====
-- agent/reviewer_findings.py: the findings of a review, stored in the metadata of its thread.
pub mod Titles
pub mod Rank
pub mod Select
pub mod Surfaced
pub mod Coerce
pub mod Client
pub mod Mutate
pub mod Update
pub mod Stored
pub mod Edits
pub mod Operations
pub mod Create
pub mod Thread
pub mod Again
pub mod Found
pub mod Threads
pub mod Legacy
mod Tests
