-- ===== src/Backpressure.antt =====
-- patterns/backpressure.py: send queues with a backpressure strategy, and their controller.
pub mod SendQueue
pub mod Drain
pub mod Senders
pub mod Controller
mod Tests
