-- ===== src/Deploys.antt =====
-- crates/core/src/infrastructure/repository/pending_deploys_repository.rs: the approvals workflow
-- of deploys, with its freshness checks and the fencing of targets.
pub mod Rows
pub mod Database
pub mod Requests
pub mod Decisions
pub mod Applying
pub mod Active
pub mod Retargeting
pub mod Interleaving
pub mod Freshness
pub mod Fence
pub mod Requesting
pub mod Capturing
mod Tests
