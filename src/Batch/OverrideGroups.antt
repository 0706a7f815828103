-- ===== src/Batch/OverrideGroups.antt =====
-- The groups of rows of `state_override_collect_by_block` of crates/freeze/src/types/state_override.rs.
use mathlib.Core.List.{Perm, perm_middle, append_assoc, perm_append_singleton, perm_append_comm}
use mathlib.Core.List.Perm as Permuted
use mathlib.Core.Path.{subst, subst₂}
use triodion.Prelude.{
  ℕ, ◌≤◌, ◌≡◌, refl, sym, ◌∙◌, true, false, Option, none, some, List, [], ◌∷◌, ◌++◌, length, ◌⊎◌,
  inl, inr, ltb, ◌==◌, ==_iff, All, Bool-cases, Option-cases, at_none, at_some, arith,
}
use triodion.Prelude.Order.{Bytes}
use triodion.Partitions.Types.{Params}
use triodion.Errors.{CollectError}
use triodion.Batch.Grouping.{Groups, grouped}
use triodion.Batch.GroupingRows.{push_entry-Perm, push_entry-Keyed, Keyed}
use triodion.Batch.Override.{StateReader, same_bytes, row_shadows_override, refuses_target}
use triodion.Batch.OverrideWords.{same_bytes-eq}
use triodion.Batch.NativeValues.{option_some, sum_some, unless_some, some_inj}
use triodion.Batch.OverridePlan.{same_group, group_before, retain, group_key, group_rows}

abbrev Routed : Type 0
Routed = Groups (ℕ × Bytes) Params × List Params

-- The groups that are kept and the other rows are all rows.
pub retain-Perm :
    (groups : Groups (ℕ × Bytes) Params) (alone : List Params)
    → Perm (grouped (retain groups alone).0 ++ (retain groups alone).1) (grouped groups ++ alone)
unfolding retain
retain-Perm [] alone = Permuted.refl _
retain-Perm ((key, rows) ∷ groups) alone = elim (Bool-cases (ltb (length rows) 2)) [
  | inl small ↦ rw (small) (
      Permuted.trans (retain-Perm groups (alone ++ rows)) (
        subst₂ Perm (append_assoc (grouped groups) alone rows)
          (sym (append_assoc rows (grouped groups) alone))
          (perm_append_comm (grouped groups ++ alone) rows)))
  | inr large ↦ rw (large) (
      subst₂ Perm
        (sym (append_assoc rows (grouped (retain groups alone).0) (retain groups alone).1))
        (sym (append_assoc rows (grouped groups) alone))
        (Permuted.append_left rows (retain-Perm groups alone)))
]

-- A kept group has the rows that it had, and at least two.
abbrev pub Large : {K A : Type 0} → (K → A → Type 0) → Groups K A → Type 0
Large Q groups = All (λ (key, rows). (2 ≤ length rows) × All (Q key) rows) groups

pub retain-Large :
    (Q : ℕ × Bytes → Params → Type 0) (groups : Groups (ℕ × Bytes) Params) (alone : List Params)
    → Keyed Q groups
    → Large Q (retain groups alone).0
unfolding retain
retain-Large Q [] alone h = tt
retain-Large Q ((key, rows) ∷ groups) alone ((pos, own), h) =
    elim (Bool-cases (ltb (length rows) 2)) [
      | inl small ↦ rw (small) (retain-Large Q groups (alone ++ rows) h)
      | inr large ↦ rw (large) ((ground arith, own), retain-Large Q groups alone h)
    ]

none_is_not : {A : Type 0} {a : A} → ◌≡◌ {A = Option A} none (some a) → ⊥
none_is_not h = cc

same_group-eq : (k key : ℕ × Bytes) → same_group k key ≡ true → k ≡ key
same_group-eq (b, t) (c, u) h =
    let e : (b == c) ≡ true = ground (arith, h) in
    let f : same_bytes t u ≡ true = ground (arith, h, e) in
    rw ((==_iff b c).0 e, same_bytes-eq t u f) refl

module _ (reader : StateReader) (target : Params → CollectError ⊎ Bytes)
    (input_word : Params → CollectError ⊎ ℕ) where
  -- The row is of the block and the target, it has a word, and what it reads is not part of the override.
  abbrev pub Eligible : ℕ × Bytes → Params → Type 0
  Eligible (block, t) p =
      (p.block_number ≡ some block)
      × (target p ≡ inr t)
      × (refuses_target reader t ≡ none)
      × (word : ℕ) × (input_word p ≡ inr word)
      × (row_shadows_override reader word ≡ false)

  group_key-Eligible :
      (p : Params) (key : ℕ × Bytes)
      → group_key reader target input_word p ≡ some key
      → Eligible key p
  unfolding group_key
  group_key-Eligible p key h =
      let (block, at_block, a) = option_some p.block_number _ key h in
      let (t, at_target, b) = sum_some (target p) _ key a in
      let (word, given, c) = sum_some (input_word p) _ key b in
      let (clear, d) = unless_some (row_shadows_override reader word) _ key c in
      elim (Option-cases (refuses_target reader t)) [
        | inr (why, refused) ↦ absurd (none_is_not (sym (at_some _ _ refused) ∙ d))
        | inl allowed ↦
            subst (λ k. Eligible k p) (some_inj (sym (at_none _ _ allowed) ∙ d))
              (at_block, at_target, allowed, word, given, clear)
      ]

  pub group_rows-Perm :
      (params : List Params) (groups : Groups (ℕ × Bytes) Params) (alone : List Params)
      → Perm
          (grouped (group_rows reader target input_word params groups alone).0
            ++ (group_rows reader target input_word params groups alone).1)
          (params ++ (grouped groups ++ alone))
  unfolding group_rows
  group_rows-Perm [] groups alone = Permuted.refl _
  group_rows-Perm (p ∷ params) groups alone =
      elim (Option-cases (group_key reader target input_word p)) [
        | inr (key, e) ↦
            subst
              (λ (r : Routed).
                Perm (grouped r.0 ++ r.1) (p ∷ (params ++ (grouped groups ++ alone))))
              (sym (at_some _ _ e))
              (Permuted.trans (group_rows-Perm params _ alone) (
                Permuted.trans
                  (Permuted.append_left params (
                    Permuted.append_right alone
                      (push_entry-Perm same_group group_before key p groups)))
                  (perm_middle params (grouped groups ++ alone))))
        | inl apart ↦
            subst
              (λ (r : Routed).
                Perm (grouped r.0 ++ r.1) (p ∷ (params ++ (grouped groups ++ alone))))
              (sym (at_none _ _ apart))
              (Permuted.trans (group_rows-Perm params groups (alone ++ (p ∷ []))) (
                Permuted.trans
                  (Permuted.append_left params (
                    subst (λ xs. Perm xs (p ∷ (grouped groups ++ alone)))
                      (append_assoc (grouped groups) alone (p ∷ []))
                      (perm_append_singleton p (grouped groups ++ alone))))
                  (perm_middle params (grouped groups ++ alone))))
      ]

  pub group_rows-Keyed :
      (params : List Params) (groups : Groups (ℕ × Bytes) Params) (alone : List Params)
      → Keyed Eligible groups
      → Keyed Eligible (group_rows reader target input_word params groups alone).0
  unfolding group_rows
  group_rows-Keyed [] groups alone h = h
  group_rows-Keyed (p ∷ params) groups alone h =
      elim (Option-cases (group_key reader target input_word p)) [
        | inr (key, e) ↦
            subst (λ (r : Routed). Keyed Eligible r.0) (sym (at_some _ _ e))
              (group_rows-Keyed params _ alone (
                push_entry-Keyed same_group group_before Eligible
                  (λ k other same a q. subst (λ g. Eligible g a) (same_group-eq k other same) q) key
                  p groups (group_key-Eligible p key e) h))
        | inl apart ↦
            subst (λ (r : Routed). Keyed Eligible r.0) (sym (at_none _ _ apart))
              (group_rows-Keyed params groups (alone ++ (p ∷ [])) h)
      ]
