-- ===== src/Benchmark.antt =====
-- benchmarks/connection_throughput.py: the percentile, and the two ways to broadcast.
pub mod Percentile
pub mod Broadcast
pub mod Run
mod Tests
