-- ===== src/Batch/Support.antt =====
-- `OverrideSupport` of crates/freeze/src/types/state_override.rs, what a node's answers say about its
-- support of state overrides, and the concurrent tasks of `extractor_batch_with_fallback` that share it. A
-- task's step is one atomic operation on the shared state.
use triodion.Prelude.{
  ℕ, zero, suc, ◌+◌, ◌%◌, ◌≡◌, Bool, true, false, not, List, [], ◌∷◌, ◌++◌, leb, ◌==◌,
  if◌then◌else◌,
}

abbrev pub unknown : ℕ
unknown = 0

abbrev pub supported : ℕ
supported = 1

abbrev pub ruled_out : ℕ
ruled_out = 2

abbrev pub silent_failure_limit : ℕ
silent_failure_limit = 3

-- `permits` are those that the semaphore `first_attempt` has left.
pub record OverrideSupport : Type 0 where
  pub state : ℕ
  pub permits : ℕ
  pub consecutive_failures : ℕ

-- `OverrideSupport::default()`
abbrev pub default_support : OverrideSupport
default_support = record { state = unknown; permits = 1; consecutive_failures = 0 }

unfoldable pub worth_attempting : OverrideSupport → Bool
worth_attempting s = not (s.state == ruled_out)

-- The two atomic operations of `record_supported`.
unfoldable pub reset_failures : OverrideSupport → OverrideSupport
reset_failures s = record { state = s.state; permits = s.permits; consecutive_failures = 0 }

unfoldable pub exchange_unknown : OverrideSupport → OverrideSupport
exchange_unknown s = record {
  state = if s.state == unknown then supported else s.state;
  permits = s.permits;
  consecutive_failures = s.consecutive_failures;
}

unfoldable pub rule_out : OverrideSupport → OverrideSupport
rule_out s = record {
  state = ruled_out;
  permits = s.permits;
  consecutive_failures = s.consecutive_failures;
}

-- The two atomic operations of `record_silent_failure`: the count is a `u8`, and the second one is done
-- when the limit is reached.
unfoldable pub add_failure : OverrideSupport → OverrideSupport
add_failure s = record {
  state = s.state;
  permits = s.permits;
  consecutive_failures = (s.consecutive_failures + 1) % 256;
}

unfoldable pub at_limit : OverrideSupport → Bool
at_limit s = leb silent_failure_limit ((s.consecutive_failures + 1) % 256)

abbrev pub with_permits : OverrideSupport → ℕ → OverrideSupport
with_permits s n = record {
  state = s.state;
  permits = n;
  consecutive_failures = s.consecutive_failures;
}

-- Where a task stands. The flag says whether it holds the permit, as `gate`.
pub data Pc : Type 0 where
  -- before the first `worth_attempting`
  start : Pc
  -- in `gate_first_attempt`: before its first load, in `acquire`, and before its second load
  load_verdict acquiring reload_verdict : Pc
  -- before the second `worth_attempting`, at the top of the loop, and in `extractor_batch`
  recheck next sending : Bool → Pc
  -- in `record_supported`, `rule_out`, and `record_silent_failure`
  resetting exchanging ruling adding storing : Pc
  done : Pc

-- the permits that a task holds
abbrev pub held : Bool → ℕ
held true = 1
held false = 0

-- The step of one task, on the shared state and on the flag whether any request was answered.
pub data Move : OverrideSupport → Bool → Pc → OverrideSupport → Bool → Pc → Type 0 where
  begin :
      {s : OverrideSupport} {a : Bool} → worth_attempting s ≡ true → Move s a start s a load_verdict
  skip : {s : OverrideSupport} {a : Bool} → worth_attempting s ≡ false → Move s a start s a done
  settled :
      {s : OverrideSupport} {a : Bool}
      → (s.state == unknown) ≡ false
      → Move s a load_verdict s a (recheck false)
  wait :
      {s : OverrideSupport} {a : Bool}
      → (s.state == unknown) ≡ true
      → Move s a load_verdict s a acquiring
  acquire :
      {s : OverrideSupport} {a : Bool} (n : ℕ)
      → s.permits ≡ suc n
      → Move s a acquiring (with_permits s n) a reload_verdict
  keep_permit :
      {s : OverrideSupport} {a : Bool}
      → (s.state == unknown) ≡ true
      → Move s a reload_verdict s a (recheck true)
  return_permit :
      {s : OverrideSupport} {a : Bool}
      → (s.state == unknown) ≡ false
      → Move s a reload_verdict (with_permits s (s.permits + 1)) a (recheck false)
  enter :
      {s : OverrideSupport} {a : Bool} (gate : Bool)
      → worth_attempting s ≡ true
      → Move s a (recheck gate) s a (next gate)
  give_up :
      {s : OverrideSupport} {a : Bool} (gate : Bool)
      → worth_attempting s ≡ false
      → Move s a (recheck gate) (with_permits s (s.permits + held gate)) a done
  send :
      {s : OverrideSupport} {a : Bool} (gate : Bool)
      → worth_attempting s ≡ true
      → Move s a (next gate) s a (sending gate)
  stop :
      {s : OverrideSupport} {a : Bool} (gate : Bool)
      → worth_attempting s ≡ false
      → Move s a (next gate) (with_permits s (s.permits + held gate)) a done
  finish : {s : OverrideSupport} {a : Bool} → Move s a (next false) s a done
  -- the permit goes back before the answer is looked at
  answer_values :
      {s : OverrideSupport} {a : Bool} (gate : Bool)
      → Move s a (sending gate) (with_permits s (s.permits + held gate)) true resetting
  answer_unavailable :
      {s : OverrideSupport} {a : Bool} (gate : Bool)
      → Move s a (sending gate) (with_permits s (s.permits + held gate)) true ruling
  answer_failure :
      {s : OverrideSupport} {a : Bool} (gate : Bool)
      → Move s a (sending gate) (with_permits s (s.permits + held gate)) true adding
  reset : {s : OverrideSupport} {a : Bool} → Move s a resetting (reset_failures s) a exchanging
  exchange :
      {s : OverrideSupport} {a : Bool} → Move s a exchanging (exchange_unknown s) a (next false)
  rule : {s : OverrideSupport} {a : Bool} → Move s a ruling (rule_out s) a done
  add_few :
      {s : OverrideSupport} {a : Bool}
      → at_limit s ≡ false
      → Move s a adding (add_failure s) a (next false)
  add_last :
      {s : OverrideSupport} {a : Bool}
      → at_limit s ≡ true
      → Move s a adding (add_failure s) a storing
  store : {s : OverrideSupport} {a : Bool} → Move s a storing (rule_out s) a (next false)

-- The shared state, the tasks, and whether a request was ever answered.
pub record System : Type 0 where
  pub support : OverrideSupport
  pub tasks : List Pc
  pub answered : Bool

-- One task takes a step.
pub data Step : System → System → Type 0 where
  task_moves :
      {s t : OverrideSupport} {a b : Bool} {pc qc : Pc} (before after : List Pc)
      → Move s a pc t b qc
      → Step
          (record { support = s; tasks = before ++ (pc ∷ after); answered = a })
          (record { support = t; tasks = before ++ (qc ∷ after); answered = b })

pub data Steps : System → System → Type 0 where
  stay : {s : System} → Steps s s
  step : {s t u : System} → Steps s t → Step t u → Steps s u

-- A run starts with any number of tasks and nothing known.
abbrev pub starts : ℕ → List Pc
starts zero = []
starts (suc n) = start ∷ starts n

abbrev pub initial : ℕ → System
initial n = record { support = default_support; tasks = starts n; answered = false }
