-- ===== src/Admission/Fair.antt =====
-- internal/admission/fair.go: fair admission between the queues of one target.
pub mod Defs
pub mod Bounds
pub mod Milli
mod Tests
