-- ===== src/Cli.antt =====
-- crates/cli/src: the command line, from its words to chunks of block numbers.
pub mod Position
pub mod Outside
pub mod Blocks
pub mod BlockInputs
pub mod Timestamps
pub mod Search
pub mod SearchEnds
pub mod Distinct
pub mod Subsets
pub mod RangeRefs
pub mod Reorg
pub mod Steps
pub mod StepTokens
pub mod Argv
pub mod ArgvPasses
mod Tests
mod TestsArgv
pub mod BlocksAt
