-- ===== src/Writes.antt =====
-- How a system is written into a target directory: crates/core/src/application/deploy/mod.rs.
pub mod Disk
pub mod Placing
pub mod Landing
pub mod Installing
pub mod Applying
pub mod Refining
pub mod Delivering
pub mod Deploying
pub mod Finishing
pub mod Succeeding
mod Tests
