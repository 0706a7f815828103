-- ===== src/Freeze/Payloads.antt =====
-- `get_payloads` of crates/freeze/src/freeze.rs: which partitions are collected, and into which files.
-- What every payload shares, the query, the source, the output options and the semaphore, is left out.
use triodion.Prelude.{
  String, Bool, true, false, not, ◌&&◌, ◌||◌, List, [], ◌∷◌, ◌++◌, map, flat_map, if◌then◌else◌,
}
use triodion.Prelude.Order.{Bytes}
use triodion.Prelude.Outcome.{Outcome, ok, err, ◌>>=◌}
use triodion.Prelude.Text.{append, join}
use triodion.Errors.{CollectError, collect_error}
use triodion.Partitions.Types.{Partition}
use triodion.Freeze.Files.{FileOutput, Query, Names, MetaDatatype, get_paths, same_path}

pub record Payload (D M : Type 0) : Type 0 where
  pub partition : Partition
  pub datatype : MetaDatatype D M
  pub paths : List (D × String)

-- `paths.values()`
abbrev pub values : {D : Type 0} → List (D × String) → List String
values [] = []
values ((d, path) ∷ paths) = path ∷ values paths

unfoldable pub contains : List String → String → Bool
contains [] path = false
contains (q ∷ paths) path = same_path path q || contains paths path

unfoldable pub all_exist : (String → Bool) → List String → Bool
all_exist exists [] = true
all_exist exists (path ∷ paths) = exists path && all_exist exists paths

-- `paths_set.intersection(&all_paths)`
unfoldable pub intersection : List String → List String → List String
unfolding contains
intersection [] taken = []
intersection (path ∷ paths) taken =
    let rest = intersection paths taken in if contains taken path then path ∷ rest else rest

abbrev pub is_nil : {A : Type 0} → List A → Bool
is_nil [] = true
is_nil (x ∷ xs) = false

-- `format!("{:?}", paths)`, without escapes
abbrev pub show_paths : List String → String
show_paths paths =
    append "[" (append (join ", " (map (λ p. append "\"" (append p "\"")) paths)) "]")

-- The datatypes and the partitions, in the order of the two loops.
abbrev pub pairs_with : {A B : Type 0} → A → List B → List (A × B)
pairs_with a bs = map (λ b. (a, b)) bs

abbrev pub pairs : {A B : Type 0} → List A → List B → List (A × B)
pairs xs bs = flat_map (λ a. pairs_with a bs) xs

module _ {D M : Type 0} (names : Names D M) (hex_encode : Bytes → String)
    (creates exists : String → Bool) (sink : FileOutput) (query : Query D M) where
  -- The body of the loops: the payloads, the skipped partitions, and the paths that are taken.
  unfoldable pub payloads_loop :
      List (MetaDatatype D M × Partition)
      → List (Payload D M)
      → List Partition
      → List String
      → Outcome CollectError (List (Payload D M) × List Partition)
  unfolding get_paths all_exist intersection
  payloads_loop [] payloads skipping taken = ok (payloads, skipping)
  payloads_loop ((datatype, p) ∷ rest) payloads skipping taken =
      get_paths names hex_encode creates sink query p (datatype ∷ []) >>= λ paths.
      let skipped = payloads_loop rest payloads (skipping ++ (p ∷ [])) taken in
      let payload : Payload D M = record { partition = p; datatype = datatype; paths = paths } in
      let kept = payloads_loop rest (payloads ++ (payload ∷ [])) skipping (taken ++ values paths) in
      if not sink.overwrite && all_exist exists (values paths)
      then skipped
      else if is_nil (intersection (values paths) taken)
      then kept
      else err (
          collect_error
            (append "output path collision: " (show_paths (intersection (values paths) taken))))

  unfoldable pub get_payloads : Outcome CollectError (List (Payload D M) × List Partition)
  unfolding payloads_loop
  get_payloads = payloads_loop (pairs query.datatypes query.partitions) [] [] []
