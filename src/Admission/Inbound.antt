-- ===== src/Admission/Inbound.antt =====
-- internal/admission/inbound_rate.go: the rate that a node advertises to its callers.
pub mod Defs
pub mod Cuts
pub mod Range
mod Tests
