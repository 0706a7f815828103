-- ===== src/Partitions.antt =====
-- crates/freeze/src/types/partitions.rs: partitions of the work along several dimensions.
pub mod Dim
pub mod Types
pub mod Splitting
pub mod Requests
pub mod Meaning
pub mod Rounds
pub mod Order
pub mod Product
pub mod InnerBlocks
pub mod InnerRequests
pub mod Axes
pub mod Served
pub mod Pieces
pub mod Covering
pub mod Missing
pub mod Labels
pub mod Stats
pub mod StatsFold
pub mod Tests
pub mod CallParams
pub mod LogMatches
mod TestsLogs
