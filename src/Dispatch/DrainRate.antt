-- ===== src/Dispatch/DrainRate.antt =====
-- internal/dispatch/drain_rate.go: how fast a target's queues finish jobs, and whether it is stuck.
pub mod Defs
pub mod Samples
mod Tests
