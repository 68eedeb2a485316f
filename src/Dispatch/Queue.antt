-- ===== src/Dispatch/Queue.antt =====
-- internal/dispatch/account_queue.go: the run loop of a queue.
pub mod Defs
pub mod Rate
pub mod Loop
pub mod Select
pub mod Run
pub mod RateBounds
pub mod Deadlines
pub mod Turns
pub mod Counts
pub mod Invariant
pub mod Runs
pub mod RateRuns
mod Tests
