-- ===== src/Admission.antt =====
-- internal/admission
pub mod Controller
pub mod Fair
pub mod Inbound
