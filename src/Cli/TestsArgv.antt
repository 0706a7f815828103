-- ===== src/Cli/TestsArgv.antt =====
-- The normalisation of small command lines.
use triodion.Prelude.{◌≡◌, refl, inr, true, false, none, some, List, [], ◌∷◌, ◌++◌}
use triodion.Prelude.Outcome.{ok}
use triodion.Errors.{ParseError}
use triodion.Cli.Argv.{OsString, text, Arg, negative_option, from_command, is_value, normalize}
use triodion.Cli.ArgvPasses.{Untouched, attach_all, normalize_attaches}

abbrev two_options : List Arg
two_options =
    record {
      long = some "blocks";
      aliases = [];
      short = some "b";
      short_aliases = [];
      allow_negative_numbers = true;
    }
    ∷ record {
      long = some "align";
      aliases = [];
      short = none;
      short_aliases = [];
      allow_negative_numbers = false;
    }
    ∷ []

abbrev flags : List OsString
flags = text "--align" ∷ []

flags-Untouched : Untouched (from_command two_options) flags
unfolding negative_option from_command
flags-Untouched = inr (refl, refl, tt)

abbrev later_values : List OsString
later_values = text "5000" ∷ []

normalize_attaches_example :
    normalize {E = ParseError} two_options
      (text "triodion" ∷ (text "-b" ∷ ((text "-1000:latest" ∷ later_values) ++ flags)))
    ≡ ok (text "triodion" ∷ (attach_all "blocks" (text "-1000:latest" ∷ later_values) ++ flags))
unfolding negative_option from_command is_value
normalize_attaches_example =
    normalize_attaches two_options (text "triodion") "-b" "blocks" (text "-1000:latest")
      later_values flags refl refl (refl, (refl, tt)) refl flags-Untouched
