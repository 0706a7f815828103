-- ===== src/Cli/Position.antt =====
-- `RangePosition` of crates/cli/src/parse/chunk_inputs.rs: where a reference sits in a range.
pub data RangePosition : Type 0 where
  first last none : RangePosition
