-- ===== src/Dispatch/Recovery.antt =====
-- internal/dispatch/paged_recovery.go: a queue whose jobs are partly on disk.
pub mod Defs
pub mod Loops
pub mod Balance
pub mod Ends
pub mod Sweeps
pub mod Reload
mod Tests
