-- ===== src/Catalog.antt =====
-- src/cua/catalog/: the reviewers' decisions.
pub mod Approvals
