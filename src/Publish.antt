-- ===== src/Publish.antt =====
-- agent/reviewer_publish.py and agent/tools/publish_review.py: the comments and the review that are
-- posted, and what the store keeps of them.
pub mod Render
pub mod Marked
pub mod Select
pub mod Stamp
pub mod Stamped
pub mod Published
pub mod Sourced
pub mod Once
pub mod Recorded
pub mod Settle
pub mod Post
pub mod Drop
pub mod Threads
pub mod Sweep
pub mod Host
pub mod Flow
pub mod Tool
pub mod Keeps
pub mod Before
pub mod Finish
pub mod Advanced
pub mod Whole
pub mod Anchored
pub mod Ends
pub mod Unread
mod Tests
mod OneThread
mod RunTests
