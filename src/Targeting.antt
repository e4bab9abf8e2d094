-- ===== src/Targeting.antt =====
-- src/cua/targeting: finding the one control that an action means, or refusing.
pub mod Resolver
pub mod Names
pub mod Candidates
pub mod Synthesize
