-- ===== src/Demo.antt =====
-- examples/graceful_shutdown_demo.py: a handler that cleans up, one that does not, and their shutdown.
pub mod Handlers
pub mod Simulation
mod Tests
