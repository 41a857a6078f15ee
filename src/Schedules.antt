-- ===== src/Schedules.antt =====
-- agent/dashboard/schedules.py: recurring runs of the agent.
pub mod Cron
pub mod Normal
pub mod Records
pub mod Update
pub mod Kept
pub mod Live
mod Tests
