-- ===== src/Cli/Argv.antt =====
-- crates/cli/src/argv.rs: options whose values may start with a minus sign. What the command of the
-- argument parser says of its arguments is a parameter.
use Prim.Native.Char.{Char, code}
use triodion.Prelude.{
  ℕ, zero, suc, String, Bool, true, false, ◌&&◌, ◌||◌, Option, none, some, List, [], ◌∷◌, ◌++◌,
  length, leb, ◌==◌, if◌then◌else◌,
}
use triodion.Prelude.Outcome.{Outcome, ok, diverge, ◌>>=◌}
use triodion.Prelude.Text.{append, str_eq}

-- A text, or a text followed by bytes that are not valid, the first of them at the head of the list.
pub data OsString : Type 0 where
  text : String → OsString
  not_utf8 : String → List ℕ → OsString

-- `OsString::to_str`
abbrev pub to_str : OsString → Option String
to_str (text s) = some s
to_str (not_utf8 s bytes) = none

-- a text in front of a token
abbrev pub push_onto : String → OsString → OsString
push_onto s (text t) = text (append s t)
push_onto s (not_utf8 t bytes) = not_utf8 (append s t) bytes

-- one argument of the command, as `get_long`, `get_all_aliases`, `get_short`, `get_all_short_aliases`
-- and `is_allow_negative_numbers_set` describe it
pub record Arg : Type 0 where
  pub long : Option String
  pub aliases : List String
  pub short : Option Char
  pub short_aliases : List Char
  pub allow_negative_numbers : Bool

-- Maps are lists, with the latest entry first.
pub record Spellings : Type 0 where
  pub negative_longs : List (String × String)
  pub negative_shorts : List (Char × String)
  pub all_shorts : List Char

abbrev char_eq : Char → Char → Bool
char_eq a b = code a == code b

get_long : List (String × String) → String → Option String
get_long [] key = none
get_long ((k, v) ∷ entries) key = if str_eq k key then some v else get_long entries key

get_short : List (Char × String) → Char → Option String
get_short [] key = none
get_short ((k, v) ∷ entries) key = if char_eq k key then some v else get_short entries key

contains_char : List Char → Char → Bool
contains_char [] c = false
contains_char (x ∷ xs) c = char_eq x c || contains_char xs c

-- the given short and its aliases
shorts_of : Arg → List Char
shorts_of arg = elim arg.short [ none ↦ arg.short_aliases | some c ↦ c ∷ arg.short_aliases ]

-- every key with the same value, in front of the entries
insert_all : {K : Type 0} → List K → String → List (K × String) → List (K × String)
insert_all [] v entries = entries
insert_all (k ∷ ks) v entries = insert_all ks v ((k, v) ∷ entries)

from_arg : Spellings → Arg → Spellings
unfolding shorts_of insert_all
from_arg sp arg =
    let shorts = shorts_of arg ++ sp.all_shorts in
    if arg.allow_negative_numbers
    then elim arg.long [
      | none ↦ record sp { all_shorts = shorts }
      | some canonical ↦ record {
        negative_longs = insert_all (canonical ∷ arg.aliases) canonical sp.negative_longs;
        negative_shorts = insert_all (shorts_of arg) canonical sp.negative_shorts;
        all_shorts = shorts;
      }
    ]
    else record sp { all_shorts = shorts }

from_args : Spellings → List Arg → Spellings
unfolding from_arg
from_args sp [] = sp
from_args sp (arg ∷ args) = from_args (from_arg sp arg) args

-- `Spellings::from_command`, for the arguments of the command
unfoldable pub from_command : List Arg → Spellings
unfolding from_args
from_command args =
    from_args (record { negative_longs = []; negative_shorts = []; all_shorts = [] }) args

pub record Occurrence : Type 0 where
  pub leading : String
  pub canonical : String

-- `text.strip_prefix('-')`
strip_dash : String → Option String
strip_dash String.[] = none
strip_dash (String.◌∷◌ x s) = if code x == b'-' then some s else none

-- the characters but the last, and the last
last_char : String → Option (String × Char)
last_char String.[] = none
last_char (String.◌∷◌ x s) = elim (last_char s) [
  | none ↦ some ("", x)
  | some (init, last) ↦ some (String.◌∷◌ x init, last)
]

all_chars : (Char → Bool) → String → Bool
all_chars f String.[] = true
all_chars f (String.◌∷◌ x s) = f x && all_chars f s

-- the cluster of shorts after the minus sign
short_option : Spellings → String → Option Occurrence
unfolding last_char get_short all_chars contains_char
short_option sp shorts = elim (last_char shorts) [
  | none ↦ none
  | some (leading, last) ↦ elim (get_short sp.negative_shorts last) [
    | none ↦ none
    | some canonical ↦
        if all_chars (contains_char sp.all_shorts) leading
        then some (record { leading = leading; canonical = canonical })
        else none
  ]
]

-- `token.strip_prefix("--")`
strip_dashes : String → Option String
unfolding strip_dash
strip_dashes token = elim (strip_dash token) [ none ↦ none | some rest ↦ strip_dash rest ]

unfoldable pub negative_option : Spellings → String → Option Occurrence
unfolding strip_dashes strip_dash get_long short_option
negative_option sp token = elim (strip_dashes token) [
  | some long ↦ elim (get_long sp.negative_longs long) [
    | none ↦ none
    | some canonical ↦ some (record { leading = ""; canonical = canonical })
  ]
  | none ↦ elim (strip_dash token) [ none ↦ none | some shorts ↦ short_option sp shorts ]
]

-- no character, or an ASCII digit first
empty_or_digit : String → Bool
empty_or_digit String.[] = true
empty_or_digit (String.◌∷◌ x s) = leb 48 (code x) && leb (code x) 57

unfoldable pub is_value : OsString → Bool
unfolding strip_dash empty_or_digit
is_value token = elim (to_str token) [
  | none ↦ true
  | some t ↦ elim (strip_dash t) [ none ↦ true | some rest ↦ empty_or_digit rest ]
]

-- The inner loop of `normalize`: the attached values, and the tokens after them.
unfoldable pub attach_values : String → List OsString → List OsString × List OsString
unfolding is_value
attach_values canonical [] = ([], [])
attach_values canonical (next ∷ rest) =
    let more = attach_values canonical rest in
    if is_value next
    then (push_onto (append "--" (append canonical "=")) next ∷ more.0, more.1)
    else ([], next ∷ rest)

-- the tokens for one occurrence, after its values are attached
abbrev pub occurrence_tokens : Occurrence → List OsString → List OsString
occurrence_tokens o attached =
    (if str_eq o.leading "" then [] else text (append "-" o.leading) ∷ [])
    ++ elim attached [ [] ↦ text (append "--" o.canonical) ∷ [] | a ∷ more ↦ a ∷ more ]

-- The outer loop of `normalize`: each round takes at least one token.
unfoldable pub normalize_loop :
    {E : Type 0} → ℕ → Spellings → List OsString → Outcome E (List OsString)
unfolding negative_option attach_values
normalize_loop zero sp rest = diverge
normalize_loop (suc rounds) sp [] = ok []
normalize_loop (suc rounds) sp (not_utf8 s bytes ∷ rest) = do
  out ← normalize_loop rounds sp rest
  ok (not_utf8 s bytes ∷ out)
normalize_loop (suc rounds) sp (text t ∷ rest) = elim (str_eq t "--") [
  | true ↦ ok (text t ∷ rest)
  | false ↦ elim (negative_option sp t) [
    | none ↦ normalize_loop rounds sp rest >>= λ out. ok (text t ∷ out)
    | some occurrence ↦
        let attached = attach_values occurrence.canonical rest in
        normalize_loop rounds sp attached.1 >>= λ out.
        ok (occurrence_tokens occurrence attached.0 ++ out)
  ]
]

-- The first token is the name of the program.
unfoldable pub normalize : {E : Type 0} → List Arg → List OsString → Outcome E (List OsString)
unfolding from_command normalize_loop
normalize command [] = ok []
normalize command (program ∷ rest) = do
  out ← normalize_loop (suc (length rest)) (from_command command) rest
  ok (program ∷ out)
