-- ===== src/Freeze/Tests.antt =====
-- Tests of the freeze: two datatypes, one of them with all its files there already.
use mathlib.Core.List.{Perm, perm_append_comm}
use mathlib.Core.List.Perm as Permuted
use mathlib.Core.Path.{subst}
use triodion.Prelude.{
  ℕ, ◌+◌, ◌==◌, String, Bool, true, false, Option, none, some, List, [], ◌∷◌, ◌++◌, map, length,
  ◌≡◌, refl, sym, ap, ◌⊎◌, ◌↔◌, inl, inr, if◌then◌else◌,
}
use triodion.Prelude.Outcome.{ok}
use triodion.Prelude.Text.{str_eq, join}
use triodion.Partitions.Labels.{label}
use triodion.Errors.{CollectError}
use triodion.Chunks.Number.{numbers}
use triodion.Partitions.Dim.{Dim, block_number}
use triodion.Partitions.Types.{Partition}
use triodion.Freeze.Files.{FileOutput, Query, Names, MetaDatatype, scalar, parquet, network_dir}
use triodion.Freeze.Payloads.{Payload, pairs, get_payloads}
use triodion.Freeze.Routing.{Disjoint, Routed, paths_of, get_payloads-Routed}
use triodion.Freeze.Tasks.{
  FreezeSummary, Joined, joined, join_failed, freeze_partitions, freeze_partition,
}
use triodion.Freeze.Aggregation.{freeze_partitions-Perm}
use triodion.Freeze.Main.{n_tasks, is_valid, all_required, freeze}
use triodion.Freeze.Accounts.{freeze-n_tasks}
use triodion.Freeze.Validity.{Supplied, is_valid-Supplied}
use triodion.Freeze.Writes.{Written, freeze_partition-Written}

abbrev part : String → Partition
part name = record {
  label = some (some name ∷ []);
  block_numbers = some (numbers (9 ∷ []) ∷ []);
  transactions = none;
  call_datas = none;
  addresses = none;
  contracts = none;
  from_addresses = none;
  to_addresses = none;
  slots = none;
  topic0s = none;
  topic1s = none;
  topic2s = none;
  topic3s = none;
}

abbrev two_names : Names ℕ ℕ
two_names = record {
  name = λ d. if d == 0 then "blocks" else "logs";
  same = ◌==◌;
  members = λ m. 0 ∷ 1 ∷ [];
}

abbrev sink : FileOutput
sink = record {
  output_dir = "out";
  prefix = "ethereum";
  suffix = none;
  subdirs = network_dir ∷ [];
  overwrite = false;
  format = parquet;
}

abbrev two_parts : Query ℕ ℕ
two_parts = record {
  datatypes = scalar 0 ∷ scalar 1 ∷ [];
  has_schema = λ d. true;
  partitions = part "a" ∷ [];
  partitioned_by = block_number ∷ [];
}

abbrev blocks_file : String
blocks_file = "out/ethereum/ethereum__blocks__a.parquet"

abbrev logs_file : String
logs_file = "out/ethereum/ethereum__logs__a.parquet"

abbrev logs_exist : String → Bool
logs_exist path = str_eq path logs_file

abbrev always : {A : Type 0} → A → Bool
always a = true

abbrev blocks_payload : Payload ℕ ℕ
blocks_payload = record { partition = part "a"; datatype = scalar 0; paths = (0, blocks_file) ∷ [] }

two_parts_payloads :
    get_payloads two_names (λ b. "") always logs_exist sink two_parts
    ≡ ok (blocks_payload ∷ [], part "a" ∷ [])
unfolding get_payloads label join
two_parts_payloads = refl

get_payloads-Routed_example :
    Disjoint (map paths_of (blocks_payload ∷ []))
    × Routed two_names
        (λ b. "")
        always
        logs_exist
        sink
        two_parts
        (pairs two_parts.datatypes two_parts.partitions)
        (blocks_payload ∷ [])
        (part "a" ∷ [])
get_payloads-Routed_example =
    get_payloads-Routed two_names (λ b. "") always logs_exist sink two_parts (blocks_payload ∷ [])
      (part "a" ∷ []) two_parts_payloads

abbrev needs : ℕ → List Dim
needs d = block_number ∷ []

abbrev collects : MetaDatatype ℕ ℕ → Partition → CollectError ⊎ List (ℕ × ℕ)
collects datatype p = inr ((0, 12) ∷ [])

abbrev same_rows : ℕ → ℕ
same_rows n = n

abbrev renames : String → String → Bool
renames from to = true

-- The first task finishes last.
abbrev last_first : List (Payload ℕ ℕ) → List (Payload ℕ ℕ × Option String)
last_first [] = []
last_first (p ∷ ps) = map (λ q. (q, none)) ps ++ ((p, none) ∷ [])

ends_of :
    (ps : List (Payload ℕ ℕ)) (p : Payload ℕ ℕ)
    → map (λ e. e.0) (map {B = Payload ℕ ℕ × Option String} (λ q. (q, none)) ps ++ ((p, none) ∷ []))
      ≡ ps ++ (p ∷ [])
ends_of [] p = refl
ends_of (q ∷ ps) p = ap (◌∷◌ q) (ends_of ps p)

last_first-Perm : (ps : List (Payload ℕ ℕ)) → Perm (map (λ e. e.0) (last_first ps)) ps
last_first-Perm [] = Permuted.refl []
last_first-Perm (p ∷ ps) =
    subst (λ qs. Perm qs (p ∷ ps)) (sym (ends_of ps p)) (perm_append_comm ps (p ∷ []))

abbrev summary : FreezeSummary
summary = record { completed = part "a" ∷ []; skipped = part "a" ∷ []; errored = []; n_rows = 12 }

frozen :
    freeze two_names needs
      (λ b. "")
      always
      logs_exist
      same_rows
      (λ path df. true)
      renames
      collects
      last_first
      two_parts
      sink
      false
    ≡ ok ((blocks_file, 12) ∷ [], some summary)
unfolding freeze label join
frozen = refl

freeze-n_tasks_example :
    length summary.completed + length summary.errored + length summary.skipped
    ≡ n_tasks two_names needs two_parts
freeze-n_tasks_example =
    freeze-n_tasks two_names (λ b. "") always logs_exist sink two_parts needs same_rows
      (λ path df. true) renames collects last_first last_first-Perm false ((blocks_file, 12) ∷ [])
      summary frozen

freeze_partition_blocks :
    freeze_partition two_names same_rows (λ path df. true) renames collects blocks_payload
    ≡ ((blocks_file, 12) ∷ [], inr 12)
unfolding freeze_partition
freeze_partition_blocks = refl

abbrev blocks_written : List (String × ℕ)
blocks_written = (blocks_file, 12) ∷ []

freeze_partition-Written_example :
    ((e : CollectError) × (collects (scalar 0) (part "a") ≡ inl e)
      × (blocks_written ≡ [])
      × (◌≡◌ {A = CollectError ⊎ ℕ} (inr 12) (inl e)))
    ⊎ ((dfs : List (ℕ × ℕ)) × (collects (scalar 0) (part "a") ≡ inr dfs)
        × Written two_names same_rows
            (λ path df. true)
            renames
            collects
            ((0, blocks_file) ∷ [])
            dfs
            0
            ((blocks_file, 12) ∷ [])
            (inr 12))
freeze_partition-Written_example =
    freeze_partition-Written two_names same_rows (λ path df. true) renames collects blocks_payload
      ((blocks_file, 12) ∷ []) (inr 12) freeze_partition_blocks

is_valid-Supplied_example :
    (is_valid two_names needs two_parts ≡ ok tt)
    ↔ Supplied (all_required two_names needs two_parts) two_parts.partitions
is_valid-Supplied_example = is_valid-Supplied two_names needs two_parts

abbrev one_done : Joined
one_done = joined (part "a") (inr 12)

abbrev one_lost : Joined
one_lost = join_failed "cancelled"

freeze_partitions-Perm_example :
    Perm
      (freeze_partitions (one_done ∷ one_lost ∷ []) []).completed
      (freeze_partitions (one_lost ∷ one_done ∷ []) []).completed
    × Perm
        (freeze_partitions (one_done ∷ one_lost ∷ []) []).errored
        (freeze_partitions (one_lost ∷ one_done ∷ []) []).errored
    × ((freeze_partitions (one_done ∷ one_lost ∷ []) []).skipped
        ≡ (freeze_partitions (one_lost ∷ one_done ∷ []) []).skipped)
    × ((freeze_partitions (one_done ∷ one_lost ∷ []) []).n_rows
        ≡ (freeze_partitions (one_lost ∷ one_done ∷ []) []).n_rows)
freeze_partitions-Perm_example =
    freeze_partitions-Perm (one_done ∷ one_lost ∷ []) (one_lost ∷ one_done ∷ []) []
      (perm_append_comm (one_done ∷ []) (one_lost ∷ []))
