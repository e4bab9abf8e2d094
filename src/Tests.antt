-- ===== src/Tests.antt =====
-- Runs of the modelled parts on small concrete data.
mod Data
mod Policy
mod Hitl
mod Runtime
mod Replay
mod Executor
mod Assist
mod Targeting
mod Bind
mod Limits
mod Agent
mod Catalog
mod Domain
