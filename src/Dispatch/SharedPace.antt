-- ===== src/Dispatch/SharedPace.antt =====
-- internal/dispatch/shared_pace.go: the shared pace, its definitions and what is proved of them.
pub mod Defs
pub mod Bounds
pub mod Turns
mod Tests
