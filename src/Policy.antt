-- ===== src/Policy.antt =====
-- src/cua/policy: what may be done, by whom, where. Evaluated outside the model that reads pages.
pub mod Config
pub mod Allowlist
pub mod Risk
pub mod Irreversible
pub mod Engine
pub mod Secrets
