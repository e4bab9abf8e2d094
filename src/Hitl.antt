-- ===== src/Hitl.antt =====
-- src/cua/hitl: handing a live session to a person and back.
pub mod Lease
pub mod Intervention
pub mod Reanchor
pub mod Handoff
pub mod Broker
