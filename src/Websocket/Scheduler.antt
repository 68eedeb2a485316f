-- ===== src/Websocket/Scheduler.antt =====
-- internal/websocket/queue.go: the connection scheduler, its definitions and what is proved of them.
pub mod Defs
pub mod Queue
pub mod Invariant
pub mod Order
pub mod Pacing
mod Tests
