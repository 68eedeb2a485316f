-- ===== src/Dispatch/Broker.antt =====
-- internal/dispatch/broker.go: the streams of events of jobs.
pub mod Defs
pub mod Steps
pub mod Entries
pub mod Sends
pub mod Waits
pub mod Slices
pub mod Keeps
pub mod Rooms
pub mod Runs
pub mod Delivery
mod Tests
