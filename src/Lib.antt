-- ===== src/Lib.antt =====
-- Verification of the core of triodion, a tool that collects blockchain data: chunks of block
-- numbers and of raw values, partitions of the work along dimensions, the RPC calls that a partition
-- stands for, the batches in which these calls are sent, and the expressions for blocks and
-- timestamps on the command line.
--
-- How the parts interact. The command line turns block and timestamp expressions into chunks (Cli).
-- The chunks are aligned, split and filtered by the reorg buffer (Chunks, Cli). A partition holds the
-- chunks of each dimension; it is split into one partition for each file, and each of these gives
-- the parameter sets of its RPC calls (Partitions). The calls are sent in batches, which are made
-- smaller when the node complains about their size, and one by one when batches do not help (Batch).
-- A run takes a query with its partitions, leaves out those whose files exist, and starts a task for
-- each of the others, which collects its data and writes its files (Freeze).
--
-- The files, with the code that each is about:
--   Prelude.antt and Prelude/: shared types and lemmas. Outcome is the result of a fallible call: `ok`
--     and `err` are the two sides of `Result`, `panic` is an abort, and `diverge` is a loop that ran out
--     of the rounds it was given. Words has the `u64` operations, which wrap around as in a release
--     build; Order has `std::cmp::Ord`, `min` and `max`; Chars and Text have the operations on `str`.
--   Errors.antt: the error variants of crates/freeze/src/types/errors.rs that the modelled code builds,
--     and what it reads of an error of the provider library.
--   Batch.antt and Batch/: reading the state of the chain in crates/freeze/src/types. Classify says what
--     the failures mean (errors.rs and the predicates of the other files). Send is `send_batch` of
--     sources.rs (proofs in SendOrder). Multicall is the batches of multicall.rs (proofs in
--     MulticallRows and MulticallLadder), MulticallPlan is how its rows are put into batches (proofs
--     in MulticallBatches). The rest is state_override.rs: Override has the extractor's request and the
--     check of its answer (proofs in OverrideWords and OverrideAnswers), Extractor is `extractor_batch`, Fallback is
--     `extractor_batch_with_fallback` (proofs in FallbackRows, FallbackRounds and FallbackEnds),
--     Support is `OverrideSupport` with the tasks that share it, as a step relation (proofs in
--     SupportRuns, SupportRules and SupportProgress), Grouping has the maps of rows and
--     `even_chunks` (proofs in GroupingRows and EvenChunks), Native is `plan_native_chunks` (proofs in
--     NativePlan). Halving has what the two halving loops share.
--     OverridePlan is how `state_override_collect_by_block` puts rows into chunks (proofs in OverrideGroups
--     and OverrideWork).
--     Conversions is conversions.rs, the words that a contract returns.
--     NativeBatch is `native_storage_batch` (proofs in NativeValues and NativeRows). Rpc is rpc_batch.rs
--     (proofs in RpcRows), and Reads has the readers of many slots and accounts of sources.rs (proofs in
--     ReadsLoop and ReadsSlots).
--   Freeze.antt and Freeze/: crates/freeze/src/freeze.rs and what it calls. Files is types/files.rs,
--     Payloads is `get_payloads` (proofs in Routing), Tasks is `freeze_partition` and
--     `freeze_partitions` with `df_to_file` of types/dataframes/export.rs (proofs in Writes and
--     Aggregation), Main is `freeze` with `is_valid` of types/queries.rs (proofs in Accounts and
--     Validity), and Run is the files that the tasks write in turns, as a step relation (proofs in RunWhole).
--   Chunks.antt and Chunks/: crates/freeze/src/types/chunks. Interface is the trait `ChunkData` with
--     the statistics (chunk_ops.rs), Number is number_chunk.rs, Binary is binary_chunk.rs, Subchunks is
--     subchunks.rs; Ranges, Splits, Aligned, AlignedFiles, Extremes and LogFilters hold the proofs.
--   Partitions.antt and Partitions/: crates/freeze/src/types/partitions.rs. Dim is `Dim`, Types has the
--     records, Splitting has `partition` and `partition_with_labels` with their macros, Requests has
--     `param_sets` with its macro, Labels has the names of partitions, Stats has their statistics
--     (proofs in StatsFold).
--     CallParams is rpc_params.rs, with the test of raw logs of
--     crates/freeze/src/multi_datasets/log_events.rs (proofs in LogMatches).
--     Meaning says which RPC calls a partition stands for, without reference to the loops; Rounds,
--     Order, Product, InnerBlocks, InnerRequests, Served, Axes, Pieces, Covering and Missing hold the
--     proofs.
--   Cli.antt and Cli/: crates/cli/src/parse. Blocks and BlockInputs are blocks.rs, Timestamps is
--     timestamps.rs, Position is `RangePosition` of chunk_inputs.rs; Search, SearchEnds, Distinct,
--     BlocksAt, Subsets, Steps, StepTokens, RangeRefs and Reorg hold the proofs. Argv is
--     crates/cli/src/argv.rs, with its proofs in ArgvPasses.
--
-- Parameters. Outside.antt has the two records for what is not in the repository: `Floats`, the
-- floating-point type of the language, and `Node`, the answers of the RPC node, which are fixed for
-- one run. The printer of raw values as hexadecimal text is an argument of the definitions that use
-- it, and so is what the argument parser's command says of its arguments.
-- In Batch the answers of the node are arguments: functions of the number of the request and of what is
-- sent, so that the same request may be answered differently later. So are the codecs of
-- `aggregate3`, what a dataset says of its rows, and the verdict that other tasks may change.
-- In Freeze the datatypes are an argument, an enumeration with names and members that macros generate, and so
-- are what collects a partition, what the disk has and whether its operations succeed, and the order in
-- which the tasks finish.
-- Cloning and the asynchronous calls are left out: the modelled code awaits them one by one.
--
-- Bounds. The loop of `range_to_chunks` has a single `u64` that changes, so that 2 ^ 64 rounds are
-- enough for any run that ends. The binary search has two more rounds than the number of the last
-- block, and each round takes away at least one block. `slice::chunks` has as many rounds as items, and
-- the normalisation of the command line one round more than tokens.
-- `send_batch` has as many rounds as calls and the starting size together: a round sends a call or
-- makes the batches smaller. Halving `k` rows down to single rows takes 2k - 1 rounds. The tasks that
-- share a verdict take any number of steps, in any order.
-- A `usize` is a `u64`.
--
-- Not modelled: the transport of the calls and its retries (the provider library), the channels between the
-- tasks of the collection loops, the run of the extractor's bytecode, the datasets
-- and their columns, the writers of data frames, the reports and progress bars, the Python bindings, and
-- the rest of the command line (files of chunks, schemas). That the temporary files of two outputs
-- are different is a hypothesis on the tasks of a run.
pub mod Prelude
pub mod Errors
pub mod Chunks
pub mod Partitions
pub mod Batch
pub mod Freeze
pub mod Cli
