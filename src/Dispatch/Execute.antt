-- ===== src/Dispatch/Execute.antt =====
-- internal/dispatch/account_queue.go: one attempt at a job, and how a job ends.
pub mod Effects
pub mod Delay
pub mod Signals
pub mod Defs
pub mod Endings
pub mod Attempts
pub mod Retries
mod Tests
