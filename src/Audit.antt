-- ===== src/Audit.antt =====
-- crates/core/src/infrastructure/repository/audit_log_repository.rs: the append-only audit log
-- and its chain of hashes.
pub mod Rows
pub mod Recording
pub mod Verifying
pub mod Chain
pub mod Growth
pub mod Commitment
pub mod Paging
pub mod Tests
