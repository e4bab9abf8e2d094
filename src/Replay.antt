-- ===== src/Replay.antt =====
-- src/cua/replay/: the parts of the replay engine.
pub mod Classify
pub mod Wait
pub mod Inputs
pub mod Bind
pub mod Limits
pub mod Transforms
pub mod Result
pub mod Executor
