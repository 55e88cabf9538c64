-- ===== src/Shutdown.antt =====
-- patterns/graceful_shutdown.py: the registry of connections, and the shutdown of the server.
pub mod Registry
pub mod Close
pub mod Lifespan
mod Tests
