-- ===== src/Dispatch/Worker.antt =====
-- internal/dispatch/url_worker.go: the worker of a target.
pub mod Defs
pub mod Backlog
pub mod Calls
pub mod Floor
pub mod Mode
mod Tests
