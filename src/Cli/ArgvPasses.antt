-- ===== src/Cli/ArgvPasses.antt =====
-- What `normalize` of crates/cli/src/argv.rs does to the tokens.
use triodion.Prelude.{
  ℕ, zero, suc, ◌≤◌, ◌<◌, ◌≡◌, refl, ap, ◌⊎◌, inl, inr, String, true, false, none, some, List, [],
  ◌∷◌, ◌++◌, map, length, length-append, All, Bool-cases, Option-cases, arith,
}
use triodion.Prelude.Outcome.{ok, ◌>>=◌}
use triodion.Prelude.Text.{append, str_eq}
use triodion.Cli.Argv.{
  OsString, text, not_utf8, push_onto, Arg, Spellings, Occurrence, negative_option, is_value,
  attach_values, occurrence_tokens, normalize_loop, normalize, from_command,
}

attach_values-length :
    (canonical : String) (rest : List OsString)
    → length (attach_values canonical rest).1 ≤ length rest
unfolding attach_values
attach_values-length canonical [] = omega arith
attach_values-length canonical (next ∷ rest) = elim (Bool-cases (is_value next)) [
  | inl yes_value ↦ rw yes_value (let le = attach_values-length canonical rest in omega arith)
  | inr no_value ↦ rw no_value (omega arith)
]

-- tokens that the pass does not touch, up to the first `--`
abbrev pub Untouched : Spellings → List OsString → Type 0
Untouched sp [] = Unit
Untouched sp (not_utf8 s bytes ∷ rest) = Untouched sp rest
Untouched sp (text t ∷ rest) =
    (str_eq t "--" ≡ true)
    ⊎ ((str_eq t "--" ≡ false) × (negative_option sp t ≡ none) × Untouched sp rest)

module _ {E : Type 0} (sp : Spellings) where
  normalize_loop-ok :
      (rounds : ℕ) (rest : List OsString)
      → length rest < rounds
      → (out : List OsString) × (normalize_loop {E = E} rounds sp rest ≡ ok out)
  unfolding normalize_loop
  normalize_loop-ok zero rest h = absurd (omega arith)
  normalize_loop-ok (suc rounds) [] h = ([], refl)
  normalize_loop-ok (suc rounds) (not_utf8 s bytes ∷ rest) h =
      let (out, found) = normalize_loop-ok rounds rest (omega arith) in
      (not_utf8 s bytes ∷ out, rw (normalize_loop, found) refl)
  normalize_loop-ok (suc rounds) (text t ∷ rest) h = elim (Bool-cases (str_eq t "--")) [
    | inl escape ↦ (text t ∷ rest, rw (normalize_loop, escape) refl)
    | inr no_escape ↦ elim (Option-cases (negative_option sp t)) [
      | inl no_option ↦
          let (out, found) = normalize_loop-ok rounds rest (omega arith) in
          (text t ∷ out, rw (normalize_loop, no_escape, no_option, found) refl)
      | inr (o, is_option) ↦
          let le = attach_values-length o.canonical rest in
          let (out, found) =
            normalize_loop-ok rounds (attach_values o.canonical rest).1 (omega arith) in
          (
            occurrence_tokens o (attach_values o.canonical rest).0 ++ out,
            rw (normalize_loop, no_escape, is_option, found) refl,
          )
    ]
  ]

  normalize_loop-Untouched :
      (rounds : ℕ) (rest : List OsString)
      → length rest < rounds
      → Untouched sp rest
      → normalize_loop {E = E} rounds sp rest ≡ ok rest
  unfolding normalize_loop
  normalize_loop-Untouched zero rest h u = absurd (omega arith)
  normalize_loop-Untouched (suc rounds) [] h u = refl
  normalize_loop-Untouched (suc rounds) (not_utf8 s bytes ∷ rest) h u =
      rw (normalize_loop, normalize_loop-Untouched rounds rest (omega arith) u) refl
  normalize_loop-Untouched (suc rounds) (text t ∷ rest) h (inl escape) =
      rw (normalize_loop, escape) refl
  normalize_loop-Untouched (suc rounds) (text t ∷ rest) h (inr (no_escape, no_option, u)) =
      rw
        (normalize_loop, no_escape, no_option, normalize_loop-Untouched rounds rest (omega arith) u)
        refl

-- one round on an option
normalize_loop-option :
    {E : Type 0} (sp : Spellings) (rounds : ℕ) (t : String) (o : Occurrence)
    (rest attached rest' out : List OsString)
    → str_eq t "--" ≡ false
    → negative_option sp t ≡ some o
    → attach_values o.canonical rest ≡ (attached, rest')
    → normalize_loop {E = E} rounds sp rest' ≡ ok out
    → normalize_loop {E = E} (suc rounds) sp (text t ∷ rest)
      ≡ ok (occurrence_tokens o attached ++ out)
unfolding normalize_loop
normalize_loop-option sp rounds t o rest attached rest' out no_escape is_option split found =
    rw (normalize_loop, no_escape, is_option, split, found) refl

-- All tokens of a list, with the name of the option in front of each.
abbrev pub attach_all : String → List OsString → List OsString
attach_all canonical values = map (push_onto (append "--" (append canonical "="))) values

-- What stands after the values of an option: nothing, or a token that is no value.
abbrev pub Stops : List OsString → Type 0
Stops [] = Unit
Stops (next ∷ rest) = is_value next ≡ false

attach_values-append :
    (canonical : String) (values rest : List OsString)
    → All (λ v. is_value v ≡ true) values
    → Stops rest
    → attach_values canonical (values ++ rest) ≡ (attach_all canonical values, rest)
unfolding attach_values
attach_values-append canonical [] [] h k = refl
attach_values-append canonical [] (next ∷ rest) h k = rw (attach_values, k) refl
attach_values-append canonical (v ∷ values) rest (hv, h) k =
    rw (attach_values, hv, attach_values-append canonical values rest h k) refl

-- The pass always ends with a token list: each round takes a token.
pub normalize-ok :
    {E : Type 0} (command : List Arg) (argv : List OsString)
    → (out : List OsString) × (normalize {E = E} command argv ≡ ok out)
unfolding normalize
normalize-ok command [] = ([], refl)
normalize-ok command (program ∷ rest) =
    let (out, found) =
      normalize_loop-ok (from_command command) (suc (length rest)) rest (omega arith) in
    (program ∷ out, ap (λ m. m >>= λ o. ok (program ∷ o)) found)

-- A command line is unchanged if no token after the program's name, up to the first `--`, is an
-- option that takes negative values.
pub normalize-Untouched :
    {E : Type 0} (command : List Arg) (program : OsString) (rest : List OsString)
    → Untouched (from_command command) rest
    → normalize {E = E} command (program ∷ rest) ≡ ok (program ∷ rest)
unfolding normalize
normalize-Untouched command program rest u =
    ap (λ m. m >>= λ o. ok (program ∷ o))
      (normalize_loop-Untouched (from_command command) (suc (length rest)) rest (omega arith) u)

-- An option that takes negative values, alone in its token, followed by at least one value and then
-- by no value: each value becomes a token of its own with the option attached, in order, and the
-- tokens after them, here ones that the pass does not touch, stay.
pub normalize_attaches :
    {E : Type 0} (command : List Arg) (program : OsString) (option canonical : String)
    (value : OsString) (values rest : List OsString)
    → str_eq option "--" ≡ false
    → negative_option (from_command command) option
      ≡ some (record { leading = ""; canonical = canonical })
    → All (λ v. is_value v ≡ true) (value ∷ values)
    → Stops rest
    → Untouched (from_command command) rest
    → normalize {E = E} command (program ∷ (text option ∷ ((value ∷ values) ++ rest)))
      ≡ ok (program ∷ (attach_all canonical (value ∷ values) ++ rest))
unfolding normalize
normalize_attaches command program option canonical value values rest no_escape is_option h stop u =
    let sp = from_command command in
    let all : List OsString = (value ∷ values) ++ rest in
    let after =
      normalize_loop-Untouched sp (suc (length all)) rest
        (omega (arith, length-append (value ∷ values) rest)) u in
    ap (λ m. m >>= λ o. ok (program ∷ o))
      (normalize_loop-option sp (suc (length all)) option _ all
        (attach_all canonical (value ∷ values)) rest rest no_escape is_option
        (attach_values-append canonical (value ∷ values) rest h stop) after)
