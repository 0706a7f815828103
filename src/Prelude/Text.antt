-- ===== src/Prelude/Text.antt =====
-- Text: the standard library's operations on `str` that the program uses.
use Prim.Native.Nat.{ℕ, zero, suc, ◌-◌, ◌/◌, ◌%◌}
use Prim.Native.String.{String, ◌++◌, count}
use mathlib.Core.List.{List, [], ◌∷◌}
use triodion.Prelude.Tests.{◌==◌, ltb, if◌then◌else◌}
pub use Prim.Native.String.{◌++◌ as append}
pub use text.Mathlib.Text.{◌==◌ as str_eq, starts_with}
pub use text.Mathlib.TextEquality.{eq_iff}
pub use text.Mathlib.TextPositions.{eq_refl}

-- `pieces.join(separator)`
unfoldable pub join : String → List String → String
join sep [] = ""
join sep (s ∷ []) = s
join sep (s ∷ (t ∷ ts)) = s ++ (sep ++ join sep (t ∷ ts))

-- one decimal digit
unfoldable pub digit : ℕ → String
digit d =
    if d == 0
    then "0"
    else if d == 1
    then "1"
    else if d == 2
    then "2"
    else if d == 3
    then "3"
    else if d == 4
    then "4"
    else if d == 5
    then "5"
    else if d == 6
    then "6"
    else if d == 7
    then "7"
    else if d == 8
    then "8"
    else "9"

decimal_onto : ℕ → ℕ → String → String
unfolding digit
decimal_onto zero n out = out
decimal_onto (suc fuel) n out =
    let rest = decimal_onto fuel (n / 10) (digit (n % 10) ++ out) in
    if ltb n 10 then digit n ++ out else rest

-- `format!("{}", n)`; a number has fewer digits than its value plus one.
unfoldable pub decimal : ℕ → String
unfolding decimal_onto
decimal n = decimal_onto (suc n) n ""

zeros : ℕ → String → String
zeros zero s = s
zeros (suc n) s = "0" ++ zeros n s

-- `format!("{:0>w$}", n)`
unfoldable pub zero_padded : ℕ → ℕ → String
unfolding decimal zeros
zero_padded w n = let s = decimal n in zeros (w - count s) s
