-- ===== src/Queue.antt =====
-- agent/utils/thread_ops.py and agent/middleware/check_message_queue.py: the messages that wait for
-- a busy thread, and the middleware that injects them before the next model call.
pub mod Store
pub mod Blocks
pub mod Check
pub mod Fifo
pub mod Races
pub mod Delivery
mod Tests
