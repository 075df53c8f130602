-- ===== src/Systems.antt =====
-- From a system file and a catalog to a deployment plan: crates/core/src/application/compose/mod.rs
-- and crates/core/src/application/plan/mod.rs, with the types of crates/core/src/domain.
pub mod Catalog
pub mod Composing
pub mod Resolving
pub mod Composition
pub mod Totality
pub mod Planning
pub mod Plans
pub mod Deletions
pub mod Resolver
pub mod Tests
