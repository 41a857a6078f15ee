-- ===== src/Resolve.antt =====
-- agent/tools/resolve_finding_thread.py, agent/tools/update_finding.py and
-- agent/tools/reply_to_finding_thread.py: the tools that change a finding and answer or settle its
-- review threads.
pub mod Notes
pub mod GitHub
pub mod Loop
pub mod Tool
pub mod Settled
pub mod Stored
pub mod Update
pub mod Updates
pub mod Noted
pub mod Again
pub mod Reply
pub mod Replied
mod Tests
