-- ===== src/Batch.antt =====
-- crates/freeze/src/types: reading the state of the chain in batches.
mod Tests
mod TestsOverride
mod TestsSupport
pub mod Classify
pub mod Send
pub mod SendOrder
pub mod Multicall
pub mod Grouping
pub mod GroupingRows
pub mod EvenChunks
pub mod Halving
pub mod MulticallPlan
pub mod MulticallBatches
pub mod Override
pub mod OverrideWords
pub mod OverrideAnswers
pub mod Extractor
pub mod Fallback
pub mod FallbackRows
pub mod FallbackRounds
pub mod FallbackEnds
pub mod Native
pub mod NativePlan
pub mod Support
pub mod SupportRuns
pub mod SupportRules
pub mod SupportProgress
pub mod MulticallRows
pub mod MulticallLadder
pub mod Reads
pub mod ReadsLoop
pub mod ReadsSlots
mod TestsReads
pub mod Rpc
pub mod RpcRows
pub mod OverridePlan
pub mod OverrideGroups
pub mod OverrideWork
mod TestsPlan
pub mod NativeBatch
pub mod NativeValues
pub mod NativeRows
mod TestsRpc
mod TestsNative
pub mod Conversions
mod TestsWords
