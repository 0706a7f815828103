-- ===== src/Freeze/Run.antt =====
-- The file writes of the tasks that `freeze_partitions` spawns, interleaved: `df_to_file` of
-- crates/freeze/src/types/dataframes/export.rs creates the temporary file, fills it and renames it, and
-- other tasks may run between these.
use triodion.Prelude.{ℕ, String, true, ◌==◌, Option, none, some, List, [], ◌∷◌, ◌≡◌, if◌then◌else◌}
use triodion.Freeze.Files.{same_path}
use triodion.Freeze.Tasks.{extension, tmp_path, written_as}

-- A file holds a data frame, the whole of it or not yet.
pub data File (F : Type 0) : Type 0 where
  partial whole : F → File F

abbrev pub Disk : Type 0 → Type 0
Disk F = String → Option (File F)

-- `File::create`, and the writer's `finish`
abbrev pub put : {F : Type 0} → String → File F → Disk F → Disk F
put path file disk q = if same_path q path then some file else disk q

-- `std::fs::rename`
abbrev pub rename : {F : Type 0} → String → String → Disk F → Disk F
rename from to disk q =
    if same_path q to then disk from else if same_path q from then none else disk q

-- A task before the next data frame, after it created the temporary file, and after it filled it, with
-- the data frames that are left.
pub data Task (F : Type 0) : Type 0 where
  waiting : List (String × F) → Task F
  created saved : String → F → List (String × F) → Task F

-- What a task does without another one in between; an error ends the task.
pub data Act {F : Type 0} : Disk F → Task F → Disk F → Task F → Type 0 where
  create :
      {disk : Disk F} {path : String} {df : F} {todo : List (String × F)}
      → written_as (extension path) ≡ true
      → Act disk
          (waiting ((path, df) ∷ todo))
          (put (tmp_path path) (partial df) disk)
          (created path df todo)
  save :
      {disk : Disk F} {path : String} {df : F} {todo : List (String × F)}
      → Act disk (created path df todo) (put (tmp_path path) (whole df) disk) (saved path df todo)
  publish :
      {disk : Disk F} {path : String} {df : F} {todo : List (String × F)}
      → Act disk (saved path df todo) (rename (tmp_path path) path disk) (waiting todo)
  stop : {disk : Disk F} {task : Task F} → Act disk task disk (waiting [])

pub record Writers (F : Type 0) : Type 0 where
  pub disk : Disk F
  pub tasks : ℕ → Task F

abbrev pub update : {F : Type 0} → ℕ → Task F → (ℕ → Task F) → ℕ → Task F
update i task tasks j = if j == i then task else tasks j

pub data Turn {F : Type 0} : Writers F → Writers F → Type 0 where
  task_moves :
      {disk changed : Disk F} {tasks : ℕ → Task F} {next : Task F} (i : ℕ)
      → Act disk (tasks i) changed next
      → Turn
          (record { disk = disk; tasks = tasks })
          (record { disk = changed; tasks = update i next tasks })

pub data Turns {F : Type 0} : Writers F → Writers F → Type 0 where
  stay : {s : Writers F} → Turns s s
  step : {s t u : Writers F} → Turns s t → Turn t u → Turns s u
