-- ===== src/Dispatch/Target.antt =====
-- internal/dispatch/dead_target.go and the counters of internal/dispatch/account_queue.go: what
-- the queues of one target share.
pub mod Defs
pub mod Counters
mod Tests
