-- ===== src/PubSub.antt =====
-- patterns/pubsub_distributed.py: the message format and the in-memory bus.
pub mod Bus
pub mod Codec
pub mod Hub
mod Tests
