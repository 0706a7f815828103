-- ===== src/Cli/Outside.antt =====
-- What the command line gets from outside: the floating-point numbers of the language, and the
-- answers of the node.
use triodion.Prelude.{ℕ, ◌<◌, ◌^◌, String, Bool, Option}

-- The type `f64` as `F`, with the operations that the parsers use.
pub record Floats (F : Type 0) : Type 0 where
  -- `text.parse::<f64>()`
  pub parse : String → Option F
  -- `n as f64`
  pub of_integer : ℕ → F
  pub mul : F → F → F
  pub round : F → F
  pub is_finite : F → Bool
  -- `x < 0.0`
  pub is_negative : F → Bool
  -- `x >= u64::MAX as f64`
  pub reaches_max : F → Bool
  -- `x as u64`
  pub to_integer : F → ℕ
  -- the printed value, in messages
  pub show : F → String
  -- the documented range of the cast
  pub to_integer-lt : (x : F) → to_integer x < 2 ^ 64

-- The answers of the node, fixed for one run: the head, and the timestamp of each block. An outer
-- `none` is a failed call, and an inner one a block that the node does not have.
pub record Node : Type 0 where
  pub block_number : Option ℕ
  pub block_timestamp : ℕ → Option (Option ℕ)
