-- ===== src/Dispatch.antt =====
-- internal/dispatch
pub mod SharedPace
pub mod Target
pub mod Execute
pub mod Queue
pub mod Worker
pub mod UserLoad
pub mod DrainRate
pub mod Recovery
pub mod Broker
