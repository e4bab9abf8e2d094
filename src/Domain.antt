-- ===== src/Domain.antt =====
-- src/cua/domain: the vocabulary that every other part shares.
pub mod Actor
pub mod Snapshot
pub mod Text
pub mod Predicates
pub mod Target
pub mod Action
pub mod Capability
pub mod Approval
pub mod Binding
pub mod Result
