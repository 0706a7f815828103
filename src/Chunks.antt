-- ===== src/Chunks.antt =====
-- crates/freeze/src/types/chunks: block and binary chunks, their statistics and their splitting.
pub mod Interface
pub mod Number
pub mod Binary
pub mod Subchunks
pub mod Ranges
pub mod Splits
pub mod Aligned
pub mod AlignedFiles
pub mod Extremes
pub mod LogFilters
pub mod Tests
