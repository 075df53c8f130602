-- ===== src/Idempotency.antt =====
-- The `Idempotency-Key` header: crates/core/src/infrastructure/repository/
-- idempotency_repository.rs and crates/server/src/idempotency.rs.
pub mod Keys
pub mod Middleware
pub mod AtMostOnce
pub mod Replays
pub mod Storing
pub mod Polling
pub mod Ordering
mod Tests
