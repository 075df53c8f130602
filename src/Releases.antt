-- ===== src/Releases.antt =====
-- crates/core/src/application/policy/mod.rs and crates/core/src/application/reconcile/mod.rs:
-- what a deploy may release, and the state of what was released.
pub mod Gates
pub mod Drift
pub mod Tests
