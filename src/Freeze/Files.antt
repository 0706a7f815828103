-- ===== src/Freeze/Files.antt =====
-- crates/freeze/src/types/files.rs: the paths of the output files, with the parts of a query that they
-- depend on. The datatypes of the program are a parameter: an enumeration with the name and the equality
-- of its variants, and the members of the multi-datatypes.
use triodion.Prelude.{
  String, Bool, true, false, ◌&&◌, Option, none, some, List, [], ◌∷◌, flat_map, if◌then◌else◌,
}
use triodion.Prelude.Chars.{split, starts_with_char, ends_with_char}
use triodion.Prelude.Text.{append, str_eq}
use triodion.Prelude.Order.{Bytes}
use triodion.Prelude.Outcome.{Outcome, ok, err, ◌>>=◌}
use triodion.Errors.{CollectError, parse_failed, parse_error}
use triodion.Partitions.Dim.{Dim}
use triodion.Partitions.Types.{Partition}
use triodion.Partitions.Labels.{label}

pub data SubDir : Type 0 where
  datatype_dir network_dir : SubDir
  custom_dir : String → SubDir

pub data FileFormat : Type 0 where
  parquet csv json : FileFormat

unfoldable pub as_str : FileFormat → String
as_str parquet = "parquet"
as_str csv = "csv"
as_str json = "json"

pub record FileOutput : Type 0 where
  pub output_dir : String
  pub prefix : String
  pub suffix : Option String
  pub subdirs : List SubDir
  pub overwrite : Bool
  pub format : FileFormat

-- `Path::join`, on Unix: an absolute path replaces the base.
unfoldable pub join_path : String → String → String
unfolding starts_with_char ends_with_char
join_path base path =
    if starts_with_char b'/' path
    then path
    else if str_eq base ""
    then path
    else if ends_with_char b'/' base
    then append base path
    else append base (append "/" path)

pub data MetaDatatype (D M : Type 0) : Type 0 where
  multi : M → MetaDatatype D M
  scalar : D → MetaDatatype D M

-- The parts of a query that its payloads depend on.
pub record Query (D M : Type 0) : Type 0 where
  pub datatypes : List (MetaDatatype D M)
  pub has_schema : D → Bool
  pub partitions : List Partition
  pub partitioned_by : List Dim

-- What the generated enumerations say of the datatypes.
pub record Names (D M : Type 0) : Type 0 where
  pub name : D → String
  pub same : D → D → Bool
  pub members : M → List D

-- `MetaDatatype::datatypes`
unfoldable pub datatypes_of : {D M : Type 0} → Names D M → MetaDatatype D M → List D
datatypes_of names (multi m) = names.members m
datatypes_of names (scalar d) = d ∷ []

-- `HashMap::insert`
unfoldable pub insert : {D A : Type 0} → (D → D → Bool) → D → A → List (D × A) → List (D × A)
insert same d a [] = (d, a) ∷ []
insert same d a ((key, old) ∷ entries) =
    let rest = insert same d a entries in
    if same d key then (key, a) ∷ entries else (key, old) ∷ rest

module _ {D M : Type 0} (names : Names D M) (hex_encode : Bytes → String)
    (creates : String → Bool) where
  unfoldable pub file_name : FileOutput → D → String → String
  unfolding as_str
  file_name sink d label = elim sink.suffix [
    | some suffix ↦ append sink.prefix (
        append "__" (
          append (names.name d) (
            append "__"
              (append suffix (append "__" (append label (append "." (as_str sink.format))))))))
    | none ↦ append sink.prefix (
        append "__"
          (append (names.name d) (append "__" (append label (append "." (as_str sink.format))))))
  ]

  unfoldable pub subdir_name : FileOutput → D → SubDir → String
  subdir_name sink d network_dir = sink.prefix
  subdir_name sink d datatype_dir = elim sink.suffix [
    | some suffix ↦ append (names.name d) (append "__" suffix)
    | none ↦ names.name d
  ]
  subdir_name sink d (custom_dir text) = text

  -- the loop over the subdirectories
  unfoldable pub output_dir_of : FileOutput → D → List SubDir → String → String
  unfolding join_path subdir_name
  output_dir_of sink d [] dir = dir
  output_dir_of sink d (s ∷ subdirs) dir =
      output_dir_of sink d subdirs (join_path dir (subdir_name sink d s))

  -- `get_path`; `creates` is whether the directory can be created.
  unfoldable pub get_path : FileOutput → Query D M → Partition → D → Outcome CollectError String
  unfolding file_name output_dir_of join_path
  get_path sink query partition d = label hex_encode partition query.partitioned_by >>= λ text.
      let dir = output_dir_of sink d sink.subdirs sink.output_dir in
      if creates dir
      then ok (join_path dir (file_name sink d text))
      else err (parse_failed (parse_error "could not create dir"))

  -- the inner loop of `get_paths`
  unfoldable pub paths_loop :
      FileOutput
      → Query D M
      → Partition
      → List D
      → List (D × String)
      → Outcome CollectError (List (D × String))
  unfolding get_path insert
  paths_loop sink query partition [] paths = ok paths
  paths_loop sink query partition (d ∷ ds) paths =
      let without = paths_loop sink query partition ds paths in
      if query.has_schema d
      then (get_path sink query partition d >>= λ path.
          paths_loop sink query partition ds (insert names.same d path paths))
      else without

  -- `get_paths`, for the given datatypes
  unfoldable pub get_paths :
      FileOutput
      → Query D M
      → Partition
      → List (MetaDatatype D M)
      → Outcome CollectError (List (D × String))
  unfolding paths_loop datatypes_of
  get_paths sink query partition metas =
      paths_loop sink query partition (flat_map (datatypes_of names) metas) []

-- The components after the first, without repeated separators and `.`.
unfoldable pub later_components : List String → List String
later_components [] = []
later_components (s ∷ ss) =
    let rest = later_components ss in
    if str_eq s "" then rest else if str_eq s "." then rest else s ∷ rest

-- What tells two paths apart: whether they are absolute, and their components, where a `.` counts only
-- at the start of a relative path.
unfoldable pub components : List String → List String
unfolding later_components
components [] = []
components (s ∷ ss) = if str_eq s "." then s ∷ later_components ss else later_components (s ∷ ss)

abbrev pub same_texts : List String → List String → Bool
same_texts [] [] = true
same_texts [] (t ∷ ts) = false
same_texts (s ∷ ss) [] = false
same_texts (s ∷ ss) (t ∷ ts) = str_eq s t && same_texts ss ts

abbrev pub same_bool : Bool → Bool → Bool
same_bool true b = b
same_bool false true = false
same_bool false false = true

-- `PathBuf::eq`
unfoldable pub same_path : String → String → Bool
unfolding components starts_with_char split
same_path p q =
    same_bool (starts_with_char b'/' p) (starts_with_char b'/' q)
    && same_texts (components (split b'/' p)) (components (split b'/' q))
