-- ===== src/Freeze/Writes.antt =====
-- What `freeze_partition` of crates/freeze/src/freeze.rs writes, and what it counts.
use mathlib.Core.Path.{subst₂}
use triodion.Prelude.{
  at_none, at_some, at_inl, at_inr, when_true, when_false, ℕ, ◌+◌, ◌%◌, ◌^◌, ◌<◌, String, Bool,
  true, false, none, some, List, [], ◌∷◌, ◌++◌, ◌≡◌, refl, sym, ap, ◌∙◌, ◌⊎◌, inl, inr, All2,
  Bool-cases, Option-cases, Sum-cases, arith,
}
use triodion.Prelude.Words.{add64}
use triodion.Errors.{CollectError, collect_error}
use triodion.Partitions.Types.{Partition}
use triodion.Freeze.Files.{Names, MetaDatatype}
use triodion.Freeze.Payloads.{Payload}
use triodion.Freeze.Tasks.{get, df_to_file, write_loop, freeze_partition}

module _ {D M F : Type 0} (names : Names D M) (height : F → ℕ) (saves : String → F → Bool)
    (renames : String → String → Bool)
    (collect_partition : MetaDatatype D M → Partition → CollectError ⊎ List (D × F)) where
  abbrev pub total_height : List (D × F) → ℕ
  total_height [] = 0
  total_height ((d, df) ∷ dfs) = height df + total_height dfs

  -- The data frame of a datatype is written to the path of the datatype.
  abbrev pub Stored : List (D × String) → D × F → String × F → Type 0
  Stored paths (d, df) (path, content) =
      (get names.same d paths ≡ some path)
      × (content ≡ df)
      × (df_to_file saves renames df path ≡ true)

  -- Either all data frames are written and the rows counted, or those before one that has no path, or cannot be written.
  abbrev pub Written :
      List (D × String) → List (D × F) → ℕ → List (String × F) → CollectError ⊎ ℕ → Type 0
  Written paths dfs before files result =
      (All2 (Stored paths) dfs files × (result ≡ inr ((before + total_height dfs) % 2 ^ 64)))
      ⊎ ((done : List (D × F)) × (d : D) × (df : F) × (rest : List (D × F)) × (dfs
            ≡ done ++ ((d, df) ∷ rest))
          × All2 (Stored paths) done files
          × (((get names.same d paths ≡ none)
                × (result ≡ inl (collect_error "could not get path for datatype")))
              ⊎ ((path : String) × (get names.same d paths ≡ some path)
                  × (df_to_file saves renames df path ≡ false)
                  × (result ≡ inl (collect_error "error writing file")))))

  -- The first data frame is written, and the others as they are.
  Written-step :
      (paths : List (D × String)) (d : D) (df : F) (path : String) (dfs : List (D × F)) (before : ℕ)
      (files : List (String × F)) (result : CollectError ⊎ ℕ)
      → Stored paths (d, df) (path, df)
      → Written paths dfs (add64 before (height df)) files result
      → Written paths ((d, df) ∷ dfs) before ((path, df) ∷ files) result
  Written-step paths d df path dfs before files result stored (inl (every, total)) =
      inl ((stored, every), total ∙ ap inr (omega arith))
  Written-step paths d df path dfs before files result stored
        (inr (done, e, ef, rest, split, some_done, why)) =
      inr ((d, df) ∷ done, e, ef, rest, ap (◌∷◌ (d, df)) split, (stored, some_done), why)

  write_loop-Written :
      (paths : List (D × String)) (dfs : List (D × F)) (before : ℕ)
      → before < 2 ^ 64
      → (files : List (String × F)) (result : CollectError ⊎ ℕ)
      → write_loop names height saves renames collect_partition paths dfs before ≡ (files, result)
      → Written paths dfs before files result
  unfolding write_loop
  write_loop-Written paths [] before h files result e =
      subst₂ (Written paths [] before) (ap (λ r. r.0) e) (ap (λ r. r.1) e)
        (inl (tt, ap inr (omega arith)))
  write_loop-Written paths ((d, df) ∷ dfs) before h files result e =
      let after = add64 before (height df) in
      let rest = write_loop names height saves renames collect_partition paths dfs after in
      elim (Option-cases (get names.same d paths)) [
        | inl missing ↦
            let ends = sym e ∙ at_none _ _ missing in
            subst₂ (Written paths ((d, df) ∷ dfs) before) (ap (λ r. r.0) (sym ends))
              (ap (λ r. r.1) (sym ends)) (inr ([], d, df, dfs, refl, tt, inl (missing, refl)))
        | inr (path, found) ↦ elim (Bool-cases (df_to_file saves renames df path)) [
          | inl done ↦
              let ends = sym e ∙ at_some _ _ found ∙ when_true _ _ done in
              subst₂ (Written paths ((d, df) ∷ dfs) before) (ap (λ r. r.0) (sym ends))
                (ap (λ r. r.1) (sym ends))
                (Written-step paths d df path dfs before rest.0 rest.1 (found, refl, done)
                  (write_loop-Written paths dfs after (omega arith) rest.0 rest.1 refl))
          | inr failed ↦
              let ends = sym e ∙ at_some _ _ found ∙ when_false _ _ failed in
              subst₂ (Written paths ((d, df) ∷ dfs) before) (ap (λ r. r.0) (sym ends))
                (ap (λ r. r.1) (sym ends))
                (inr ([], d, df, dfs, refl, tt, inr (path, found, failed, refl)))
        ]
      ]

  -- When the data of a partition is collected, each data frame is written to the path of its datatype and their rows are
  -- counted, modulo 2^64, or those before the first one that has no path, or that cannot be written, are
  -- written, and the error says which of the two it was; when it is not collected, nothing is written.
  pub freeze_partition-Written :
      (payload : Payload D M) (files : List (String × F)) (result : CollectError ⊎ ℕ)
      → freeze_partition names height saves renames collect_partition payload ≡ (files, result)
      → ((e : CollectError) × (collect_partition payload.datatype payload.partition ≡ inl e)
          × (files ≡ [])
          × (result ≡ inl e))
        ⊎ ((dfs : List (D × F)) × (collect_partition payload.datatype payload.partition ≡ inr dfs)
            × Written payload.paths dfs 0 files result)
  unfolding freeze_partition
  freeze_partition-Written payload files result h =
      elim (Sum-cases (collect_partition payload.datatype payload.partition)) [
        | inl (e, failed) ↦
            let ends = sym h ∙ at_inl _ _ failed in
            inl (e, failed, ap (λ r. r.0) ends, ap (λ r. r.1) ends)
        | inr (dfs, got) ↦ inr (
          dfs,
          got,
          write_loop-Written payload.paths dfs 0 (omega arith) files result
              (sym (at_inr _ _ got) ∙ h),
        )
      ]
