-- ===== src/Dispatch/UserLoad.antt =====
-- internal/dispatch/user_load.go: the unfinished work of each user.
pub mod Defs
pub mod Counts
pub mod Decision
mod Tests
