-- ===== src/Prelude/Words.antt =====
-- `u64` arithmetic as a release build does it: wrapping. A division by zero panics.
use Prim.Native.Nat.{ℕ, ◌+◌, ◌-◌, ◌*◌, ◌/◌, ◌%◌, ◌^◌}
use mathlib.Core.Option.{Option, none, some}
use triodion.Prelude.Tests.{◌==◌, ltb, if◌then◌else◌}
use triodion.Prelude.Outcome.{Outcome, ok, panic}

abbrev pub u64_mod : ℕ
u64_mod = 2 ^ 64

abbrev pub u32_mod : ℕ
u32_mod = 2 ^ 32

abbrev pub add64 : ℕ → ℕ → ℕ
add64 a b = (a + b) % 2 ^ 64

abbrev pub sub64 : ℕ → ℕ → ℕ
sub64 a b = (a + 2 ^ 64 - b) % 2 ^ 64

abbrev pub mul64 : ℕ → ℕ → ℕ
mul64 a b = (a * b) % 2 ^ 64

-- `checked_sub` and `checked_add`
abbrev pub checked_sub : ℕ → ℕ → Option ℕ
checked_sub a b = if ltb a b then none else some (a - b)

abbrev pub checked_add : ℕ → ℕ → Option ℕ
checked_add a b = if ltb (a + b) (2 ^ 64) then some (a + b) else none

-- `/`, `%` and `div_ceil`
abbrev pub div : {E : Type 0} → ℕ → ℕ → Outcome E ℕ
div a b = if b == 0 then panic else ok (a / b)

abbrev pub rem : {E : Type 0} → ℕ → ℕ → Outcome E ℕ
rem a b = if b == 0 then panic else ok (a % b)

abbrev pub div_ceil : {E : Type 0} → ℕ → ℕ → Outcome E ℕ
div_ceil a b = if b == 0 then panic else ok (if ltb 0 (a % b) then a / b + 1 else a / b)
