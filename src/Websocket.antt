-- ===== src/Websocket.antt =====
-- internal/websocket
pub mod Scheduler
