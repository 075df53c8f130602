-- ===== src/Accounts.antt =====
-- Users, sessions and the authentication of requests: crates/core/src/infrastructure/repository/
-- {users,sessions}_repository.rs and crates/server/src/{auth,session_cookie}.rs.
pub mod Roles
pub mod Users
pub mod Sessions
pub mod Cookies
pub mod Disabling
pub mod Pending
pub mod Lifetimes
pub mod Sliding
pub mod Staying
mod Tests
