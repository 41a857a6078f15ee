-- ===== src/Diff.antt =====
-- agent/reviewer_diff.py: the parser of unified diffs, the lines that a diff covers, and the tests
-- that anchor a finding to it.
pub mod Lines
pub mod Header
pub mod Parse
pub mod OnePass
pub mod Complete
pub mod Cover
pub mod Extract
pub mod Hunk
mod Tests
pub mod Anchor
