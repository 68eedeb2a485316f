-- ===== src/Region.antt =====
-- internal/region and internal/core/region_redirect.go: sending a job to another region.
pub mod Redirect
pub mod Candidates
pub mod Tour
pub mod Outcomes
pub mod Attempts
mod Tests
