-- ===== src/Jobs.antt =====
-- internal/jobs/job.go
pub mod Defs
pub mod Identity
pub mod Deadlines
pub mod Requests
mod Tests
