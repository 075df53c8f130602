-- ===== src/Access.antt =====
-- The layers that a request passes before its handler runs: crates/server/src/auth.rs, and the
-- order in which crates/server/src/lib.rs puts them.
pub mod Requests
pub mod Tokens
pub mod Authentication
pub mod Bits
pub mod Csrf
pub mod Guards
pub mod Passing
pub mod Barring
pub mod Concrete
mod Tests
