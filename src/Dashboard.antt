-- ===== src/Dashboard.antt =====
-- examples/realtime_dashboard.py: `FakeWebSocket`, `ConnectionManager`, which puts the registry and the
-- backpressure controller together, and the tasks of the simulation.
pub mod Manager
pub mod Tasks
pub mod Schedule
mod Tests
