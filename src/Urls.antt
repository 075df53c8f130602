-- ===== src/Urls.antt =====
-- crates/core/src/infrastructure/url_policy.rs: which URLs a source may be fetched from.
pub mod Splitting
pub mod Addresses
pub mod Policy
pub mod Reading
pub mod Guard
pub mod Ranges
pub mod Defaults
pub mod Tests
