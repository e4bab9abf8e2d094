-- ===== src/Evidence.antt =====
-- src/cua/evidence: the run record.
pub mod Json
pub mod Redact
pub mod Bus
