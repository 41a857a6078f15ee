-- ===== src/Groups.antt =====
-- agent/reviewer_groups.py: the groups of changed files of the "AI sorted" view.
pub mod Normalize
pub mod Partition
pub mod Coverage
pub mod Prompt
pub mod Store
mod Tests
