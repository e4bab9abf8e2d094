-- ===== src/Agent.antt =====
-- src/cua/agent/: the bounds of a discovery run, and what a tool call of it does.
pub mod Budget
pub mod Tools
pub mod Perform
pub mod Discovery
