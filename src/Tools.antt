-- ===== src/Tools.antt =====
-- agent/tools/add_finding.py and agent/tools/update_finding.py: the tools by which the reviewer
-- records and changes findings.
pub mod Ranges
pub mod AddFinding
pub mod Recorded
pub mod Unwritten
mod Tests
