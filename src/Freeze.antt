-- ===== src/Freeze.antt =====
-- crates/freeze/src/freeze.rs: from a query to the files of its partitions.
pub mod Files
pub mod Payloads
pub mod Routing
pub mod Tasks
pub mod Run
pub mod RunWhole
pub mod Main
pub mod Aggregation
pub mod Accounts
pub mod Validity
pub mod Writes
mod Tests
mod TestsRun
