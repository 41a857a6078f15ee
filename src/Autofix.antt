-- ===== src/Autofix.antt =====
-- agent/ci_autofix.py: fix runs for failing checks and review feedback on the agent's own pull
-- requests.
pub mod Prompts
pub mod Keys
pub mod Ports
pub mod Handler
pub mod Attempts
pub mod Allowed
pub mod Whole
pub mod Runs
pub mod Handled
pub mod Sweep
pub mod Counted
mod Tests
