-- ===== src/Journal.antt =====
-- crates/core/src/application/journal/mod.rs: the recovery journal. `Status` has its enums and the
-- state machine, `Service` the operations of `JournalService` over the table `operations`; the
-- other children are about what they are named for.
pub mod Kind
pub mod Status
pub mod Service
pub mod Machine
pub mod Steps
pub mod Rows
pub mod History
mod Tests
