-- ===== src/Lineage.antt =====
-- core/schema/lineage.go: which types of a schema use which.
pub mod Walk
pub mod Deps
pub mod Roots
pub mod Compute
