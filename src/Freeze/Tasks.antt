-- ===== src/Freeze/Tasks.antt =====
-- `freeze_partition`, `freeze_partitions` and `freeze` of crates/freeze/src/freeze.rs, with `df_to_file`
-- of crates/freeze/src/types/dataframes/export.rs. What collects a partition, the library that writes a
-- data frame and the file system are parameters. Progress bars, summaries and reports are left out.
use Prim.Native.Char.{code}
use triodion.Prelude.{
  ◌==◌, ℕ, String, Bool, true, false, ◌&&◌, Option, none, some, List, [], ◌∷◌, ◌++◌, ◌⊎◌, inl, inr,
  if◌then◌else◌,
}
use triodion.Prelude.Chars.{split}
use triodion.Prelude.Text.{append, str_eq}
use triodion.Prelude.Words.{add64}
use triodion.Errors.{CollectError, collect_error}
use triodion.Partitions.Types.{Partition}
use triodion.Freeze.Files.{Names, MetaDatatype, components}
use triodion.Freeze.Payloads.{Payload}

-- the text before the last character `c`, and the text after it
unfoldable pub rsplit_once : ℕ → String → Option (String × String)
rsplit_once c String.[] = none
rsplit_once c (String.◌∷◌ x s) = elim (rsplit_once c s) [
  | some (before, after) ↦ some (String.◌∷◌ x before, after)
  | none ↦ if code x == c then some ("", s) else none
]

abbrev pub last : List String → Option String
last [] = none
last (s ∷ []) = some s
last (s ∷ (t ∷ ts)) = last (t ∷ ts)

-- `Path::file_name`, and `Path::extension` with the stem in front of it
unfoldable pub file_name_of : String → Option String
unfolding components split
file_name_of path = elim (last (components (split b'/' path))) [
  | none ↦ none
  | some name ↦ if str_eq name ".." then none else some name
]

unfoldable pub stem_and_extension : String → String × Option String
unfolding rsplit_once
stem_and_extension name = elim (rsplit_once b'.' name) [
  | none ↦ (name, none)
  | some (stem, extension) ↦ if str_eq stem "" then (name, none) else (stem, some extension)
]

unfoldable pub extension : String → Option String
unfolding file_name_of stem_and_extension
extension path = elim (file_name_of path) [ none ↦ none | some name ↦ (stem_and_extension name).1 ]

-- `Path::with_extension`, for a path that does not end in a separator
unfoldable pub with_extension : String → String → String
unfolding file_name_of stem_and_extension rsplit_once
with_extension path new = elim (file_name_of path) [
  | none ↦ path
  | some name ↦
      let stem = (stem_and_extension name).0 in
      elim (rsplit_once b'/' path) [
        | some (dir, base) ↦ append dir (append "/" (append stem (append "." new)))
        | none ↦ append stem (append "." new)
      ]
]

abbrev pub tmp_path : String → String
tmp_path path = with_extension path "_tmp"

-- The extensions that a data frame is written under.
abbrev pub written_as : Option String → Bool
written_as none = false
written_as (some e) =
    if str_eq e "parquet" then true else if str_eq e "csv" then true else str_eq e "json"

-- `HashMap::get`
unfoldable pub get : {D A : Type 0} → (D → D → Bool) → D → List (D × A) → Option A
get same d [] = none
get same d ((key, a) ∷ entries) =
    let rest = get same d entries in if same d key then some a else rest

-- What the summary of a run says.
pub record FreezeSummary : Type 0 where
  pub completed : List Partition
  pub skipped : List Partition
  pub errored : List (Option Partition × CollectError)
  pub n_rows : ℕ

-- How a spawned task ends: with its partition and result, or with a failure to join it.
pub data Joined : Type 0 where
  joined : Partition → CollectError ⊎ ℕ → Joined
  join_failed : String → Joined

-- one round of the loop over the finished tasks
unfoldable pub aggregate_one : Joined → FreezeSummary → FreezeSummary
aggregate_one (joined p (inr rows)) summary = record {
  completed = summary.completed ++ (p ∷ []);
  skipped = summary.skipped;
  errored = summary.errored;
  n_rows = add64 summary.n_rows rows;
}
aggregate_one (joined p (inl e)) summary = record {
  completed = summary.completed;
  skipped = summary.skipped;
  errored = summary.errored ++ ((some p, e) ∷ []);
  n_rows = summary.n_rows;
}
aggregate_one (join_failed message) summary = record {
  completed = summary.completed;
  skipped = summary.skipped;
  errored =
      summary.errored ++ ((none, collect_error (append "error joining chunks: " message)) ∷ []);
  n_rows = summary.n_rows;
}

unfoldable pub aggregate : List Joined → FreezeSummary → FreezeSummary
unfolding aggregate_one
aggregate [] summary = summary
aggregate (j ∷ js) summary = aggregate js (aggregate_one j summary)

abbrev pub start_summary : List Partition → FreezeSummary
start_summary skipped = record { completed = []; skipped = skipped; errored = []; n_rows = 0 }

-- `FreezePartitions` after the tasks finished in the order of the list
unfoldable pub freeze_partitions : List Joined → List Partition → FreezeSummary
unfolding aggregate
freeze_partitions finished skipped = aggregate finished (start_summary skipped)

-- Whether `df_to_file` succeeds: the data frame is saved under the temporary name, which is then renamed.
unfoldable pub df_to_file :
    {F : Type 0} → (String → F → Bool) → (String → String → Bool) → F → String → Bool
unfolding extension with_extension
df_to_file saves renames df path =
    written_as (extension path) && (saves (tmp_path path) df && renames (tmp_path path) path)

module _ {D M F : Type 0} (names : Names D M) (height : F → ℕ) (saves : String → F → Bool)
    (renames : String → String → Bool)
    (collect_partition : MetaDatatype D M → Partition → CollectError ⊎ List (D × F)) where
  -- The loop over the data frames: the files it wrote, the first one first, and how it ended.
  unfoldable pub write_loop :
      List (D × String) → List (D × F) → ℕ → List (String × F) × (CollectError ⊎ ℕ)
  unfolding df_to_file get
  write_loop paths [] n_rows = ([], inr n_rows)
  write_loop paths ((d, df) ∷ dfs) n_rows =
      let rest = write_loop paths dfs (add64 n_rows (height df)) in
      elim (get names.same d paths) [
        | none ↦ ([], inl (collect_error "could not get path for datatype"))
        | some path ↦
            if df_to_file saves renames df path
            then ((path, df) ∷ rest.0, rest.1)
            else ([], inl (collect_error "error writing file"))
      ]

  unfoldable pub freeze_partition : Payload D M → List (String × F) × (CollectError ⊎ ℕ)
  unfolding write_loop
  freeze_partition payload = elim (collect_partition payload.datatype payload.partition) [
    | inl e ↦ ([], inl e)
    | inr dfs ↦ write_loop payload.paths dfs 0
  ]
