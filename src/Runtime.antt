-- ===== src/Runtime.antt =====
-- src/cua/runtime: the one path from an action to the surface.
pub mod Payloads
pub mod Command
pub mod Dispatcher
pub mod Entrypoint
pub mod Capture
