-- ===== src/Replay/Executor.antt =====
-- src/cua/replay/executor.py: the replay engine. `State` is what a run works on, `Ending` how it ends,
-- `Stepping` one step, `Recovery` the remedies and `Flow` the whole run; the others are theorems.
pub mod State
pub mod Ending
pub mod Stepping
pub mod Recovery
pub mod Flow
pub mod Resume
pub mod Resumed
pub mod Moves
pub mod Walked
pub mod Evidenced
pub mod Surface
pub mod Overtaken
pub mod Finished
