-- ===== src/Admission/Controller.antt =====
-- internal/admission/admission.go: the limits of the process, and the Retry-After of a refusal.
pub mod Defs
pub mod Check
pub mod RetryAfter
mod Tests
