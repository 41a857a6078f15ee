-- ===== src/Breaker.antt =====
-- agent/middleware/sandbox_circuit_breaker.py: the middleware that ends a run whose sandbox fails
-- again and again, and its notification.
pub mod Message
pub mod Streak
pub mod Target
pub mod Hooks
pub mod Runs
pub mod Notify
mod Tests
