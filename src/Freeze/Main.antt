-- ===== src/Freeze/Main.antt =====
-- `Query::is_valid` of crates/freeze/src/types/queries.rs and `freeze` of crates/freeze/src/freeze.rs.
-- The dimensions that a datatype requires, and the order in which the spawned tasks finish, are
-- parameters.
use triodion.Prelude.{
  ℕ, String, Bool, false, ◌*◌, ◌||◌, Option, none, some, List, [], ◌∷◌, map, flat_map, length, ◌⊎◌,
  if◌then◌else◌,
}
use triodion.Prelude.Order.{Bytes}
use triodion.Prelude.Outcome.{Outcome, ok, err, ◌>>=◌}
use triodion.Prelude.Text.{append, str_eq, join}
use triodion.Errors.{CollectError, collect_error}
use triodion.Partitions.Dim.{Dim, fmt}
use triodion.Partitions.Types.{Partition}
use triodion.Partitions.Requests.{dims}
use triodion.Freeze.Files.{FileOutput, Query, Names, MetaDatatype, datatypes_of}
use triodion.Freeze.Payloads.{Payload, get_payloads, is_nil}
use triodion.Freeze.Tasks.{
  FreezeSummary, Joined, joined, join_failed, start_summary, freeze_partitions, freeze_partition,
}

-- `Dim::eq`: two dimensions with one name are the same.
unfoldable pub has_dim : List Dim → Dim → Bool
unfolding fmt
has_dim [] d = false
has_dim (e ∷ ds) d = str_eq (fmt e) (fmt d) || has_dim ds d

-- `requirements.difference(&partition_dims)`, with the requirements as they are met
unfoldable pub missing_dims : List Dim → List Dim → List Dim
unfolding has_dim
missing_dims present [] = []
missing_dims present (d ∷ ds) =
    let rest = missing_dims present ds in if has_dim present d then rest else d ∷ rest

-- the set of the dimensions, as a list
unfoldable pub distinct_dims : List Dim → List Dim
unfolding has_dim
distinct_dims [] = []
distinct_dims (d ∷ ds) = let rest = distinct_dims ds in if has_dim rest d then rest else d ∷ rest

-- the loop of `is_valid` over the partitions
unfoldable pub is_valid_loop : List Dim → List Partition → Outcome CollectError Unit
unfolding missing_dims dims
is_valid_loop requirements [] = ok tt
is_valid_loop requirements (p ∷ ps) =
    let rest = is_valid_loop requirements ps in
    let missing = missing_dims (dims p) requirements in
    if is_nil missing
    then rest
    else err (collect_error (append "need to specify " (join ", " (map fmt missing))))

module _ {D M : Type 0} (names : Names D M) (required_parameters : D → List Dim) where
  unfoldable pub n_tasks : Query D M → ℕ
  n_tasks query = length query.datatypes * length query.partitions

  unfoldable pub n_outputs : Query D M → ℕ
  unfolding datatypes_of
  n_outputs query = length (flat_map (datatypes_of names) query.datatypes) * length query.partitions

  abbrev pub all_required : Query D M → List Dim
  all_required query = flat_map required_parameters (flat_map (datatypes_of names) query.datatypes)

  abbrev pub requirements : Query D M → List Dim
  requirements query = distinct_dims (all_required query)

  unfoldable pub is_valid : Query D M → Outcome CollectError Unit
  unfolding is_valid_loop distinct_dims
  is_valid query = is_valid_loop (requirements query) query.partitions

  module _ {F : Type 0} (hex_encode : Bytes → String) (creates exists : String → Bool)
      (height : F → ℕ) (saves : String → F → Bool) (renames : String → String → Bool)
      (collect_partition : MetaDatatype D M → Partition → CollectError ⊎ List (D × F))
      (finishes : List (Payload D M) → List (Payload D M × Option String)) where
    -- what a task ends with: the files it wrote, and its result
    abbrev pub outcome : Payload D M × Option String → List (String × F) × Joined
    outcome (payload, none) =
        let (files, result) =
          freeze_partition names height saves renames collect_partition payload in
        (files, joined payload.partition result)
    outcome (payload, some message) = ([], join_failed message)

    -- `freeze`, with the files that it wrote; none is the summary of a dry run.
    unfoldable pub freeze :
        Query D M
        → FileOutput
        → Bool
        → Outcome CollectError (List (String × F) × Option FreezeSummary)
    unfolding is_valid get_payloads freeze_partitions freeze_partition
    freeze query sink dry = is_valid query >>= λ u.
        get_payloads names hex_encode creates exists sink query >>= λ found.
        let ended = map outcome (finishes found.0) in
        if dry
        then ok ([], none)
        else if is_nil found.0
        then ok ([], some (start_summary found.1))
        else ok (flat_map (λ e. e.0) ended, some (freeze_partitions (map (λ e. e.1) ended) found.1))
