-- ===== src/Fault.antt =====
-- patterns/fault_tolerance.py: heartbeats, reconnection, and the detection of dead clients.
pub mod Heartbeat
pub mod Reconnect
pub mod Detector
mod Tests
