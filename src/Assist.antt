-- ===== src/Assist.antt =====
-- src/cua/assist: a replay that a model may correct once.
pub mod Recovery
