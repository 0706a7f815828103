-- ===== src/Batch/GroupingRows.antt =====
-- Grouping and cutting keep every row, each once.
use mathlib.Core.List.{Perm, perm_middle, append_assoc}
use mathlib.Core.List.Perm as P
use triodion.Prelude.{
  ℕ, zero, suc, ◌≤◌, ◌<◌, ◌≡◌, refl, inl, inr, Bool, true, List, [], ◌∷◌, length, length-append,
  length-take, length-drop, drop, take-append-drop, concat, All, All-append, Bool-cases, arith,
}
use triodion.Batch.Grouping.{Groups, grouped, push_entry, chunks_upto, chunks}

-- Every group has rows, and all of them satisfy what the rows with its key satisfy.
abbrev pub Keyed : {K A : Type 0} → (K → A → Type 0) → Groups K A → Type 0
Keyed Q groups = All (λ (key, rows). (0 < length rows) × All (Q key) rows) groups

module _ {K A : Type 0} (same before : K → K → Bool) where
  pub push_entry-Perm :
      (k : K) (a : A) (groups : Groups K A)
      → Perm (grouped (push_entry same before k a groups)) (a ∷ grouped groups)
  unfolding push_entry
  push_entry-Perm k a [] = P.refl (a ∷ [])
  push_entry-Perm k a ((key, rows) ∷ groups) = elim (Bool-cases (same k key)) [
    | inl one ↦
        rw (one, append_assoc rows (a ∷ []) (grouped groups)) (perm_middle rows (grouped groups))
    | inr other ↦ elim (Bool-cases (before k key)) [
      | inl sooner ↦ rw (other, sooner) (P.refl _)
      | inr later ↦
          rw (other, later)
            (P.trans (P.append_left rows (push_entry-Perm k a groups))
              (perm_middle rows (grouped groups)))
    ]
  ]

  pub push_entry-Keyed :
      (Q : K → A → Type 0)
      → ((k key : K) → same k key ≡ true → (a : A) → Q k a → Q key a)
      → (k : K) (a : A) (groups : Groups K A) → Q k a
      → Keyed Q groups
      → Keyed Q (push_entry same before k a groups)
  unfolding push_entry
  push_entry-Keyed Q alike k a [] q h = ((omega arith, (q, tt)), tt)
  push_entry-Keyed Q alike k a ((key, rows) ∷ groups) q ((pos, own), h) =
      elim (Bool-cases (same k key)) [
        | inl one ↦ rw (one) (
          (
            omega (arith, length-append rows (a ∷ [])),
            All-append (Q key) rows (a ∷ []) own (alike k key one a q, tt),
          ),
          h,
        )
        | inr other ↦ elim (Bool-cases (before k key)) [
          | inl sooner ↦ rw (other, sooner) ((omega arith, (q, tt)), ((pos, own), h))
          | inr later ↦ rw (other, later) ((pos, own), push_entry-Keyed Q alike k a groups q h)
        ]
      ]

module _ {A : Type 0} where
  chunks_upto-concat :
      (count size : ℕ) (rows : List A)
      → 0 < size
      → length rows ≤ count
      → concat (chunks_upto count size rows) ≡ rows
  unfolding chunks_upto
  chunks_upto-concat zero size [] pos h = refl
  chunks_upto-concat zero size (r ∷ rows) pos h = absurd (omega arith)
  chunks_upto-concat (suc count) size [] pos h = refl
  chunks_upto-concat (suc count) size (r ∷ rows) pos h =
      rw
        (chunks_upto-concat count size (drop size (r ∷ rows)) pos
          (omega (arith, length-drop size (r ∷ rows))))
        (take-append-drop size (r ∷ rows))

  pub chunks-concat : (size : ℕ) (rows : List A) → 0 < size → concat (chunks size rows) ≡ rows
  unfolding chunks
  chunks-concat size rows pos = chunks_upto-concat (length rows) size rows pos (omega arith)

  chunks_upto-sizes :
      (count size : ℕ) (rows : List A)
      → 0 < size
      → All (λ chunk. (0 < length chunk) × (length chunk ≤ size)) (chunks_upto count size rows)
  unfolding chunks_upto
  chunks_upto-sizes zero size rows pos = tt
  chunks_upto-sizes (suc count) size [] pos = tt
  chunks_upto-sizes (suc count) size (r ∷ rows) pos =
      let e = length-take size (r ∷ rows) in
      ((omega arith, omega arith), chunks_upto-sizes count size (drop size (r ∷ rows)) pos)

  pub chunks-sizes :
      (size : ℕ) (rows : List A)
      → 0 < size
      → All (λ chunk. (0 < length chunk) × (length chunk ≤ size)) (chunks size rows)
  unfolding chunks
  chunks-sizes size rows pos = chunks_upto-sizes (length rows) size rows pos
