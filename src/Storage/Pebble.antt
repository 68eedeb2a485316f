-- ===== src/Storage/Pebble.antt =====
-- internal/storage/pebble.go: the store of jobs over a key-value engine.
pub mod Engine
pub mod Defs
pub mod Scans
pub mod Expiry
pub mod Memory
pub mod Inserts
pub mod Indexes
pub mod Pages
pub mod Dropped
pub mod Steps
pub mod Swept
pub mod Sweeps
pub mod Stranded
pub mod Runs
mod Tests
