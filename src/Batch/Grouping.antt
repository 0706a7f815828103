-- ===== src/Batch/Grouping.antt =====
-- Rows put into groups, by `entry(key).or_default().push(row)` on a map, and groups cut into chunks, by
-- `slice::chunks` and by `even_chunks` of crates/freeze/src/types/state_override.rs. A map is the list of
-- its entries, in the order in which its iterator gives them: sorted for a `BTreeMap`, and in the order
-- of their first use for a `HashMap`, whose own order is not known.
use triodion.Prelude.{
  ℕ, zero, suc, ◌+◌, ◌-◌, ◌/◌, ◌%◌, max, Bool, List, [], ◌∷◌, ◌++◌, length, take, drop, ltb,
  if◌then◌else◌,
}
use triodion.Batch.Send.{slice}

-- An entry's key and its rows.
abbrev pub Groups : Type 0 → Type 0 → Type 0
Groups K A = List (K × List A)

-- `groups.entry(key).or_default().push(row)`; a new key goes in front of those that it is before.
unfoldable pub push_entry :
    {K A : Type 0} → (K → K → Bool) → (K → K → Bool) → K → A → Groups K A → Groups K A
push_entry same before k a [] = (k, a ∷ []) ∷ []
push_entry same before k a ((key, rows) ∷ groups) =
    let rest = push_entry same before k a groups in
    if same k key
    then (key, rows ++ (a ∷ [])) ∷ groups
    else if before k key
    then (k, a ∷ []) ∷ ((key, rows) ∷ groups)
    else (key, rows) ∷ rest

-- the rows of all groups
abbrev pub grouped : {K A : Type 0} → Groups K A → List A
grouped [] = []
grouped ((key, rows) ∷ groups) = rows ++ grouped groups

-- The iterator of `rows.chunks(size)` after at most `count` chunks.
unfoldable pub chunks_upto : {A : Type 0} → ℕ → ℕ → List A → List (List A)
chunks_upto zero size rows = []
chunks_upto (suc count) size [] = []
chunks_upto (suc count) size (r ∷ rows) =
    take size (r ∷ rows) ∷ chunks_upto count size (drop size (r ∷ rows))

-- `rows.chunks(size)`, for a size that is not 0: no more chunks than rows
unfoldable pub chunks : {A : Type 0} → ℕ → List A → List (List A)
unfolding chunks_upto
chunks size rows = chunks_upto (length rows) size rows

-- `n.div_ceil(d)`
abbrev pub ceiling : ℕ → ℕ → ℕ
ceiling n d = (n + d - 1) / d

-- the loop of `even_chunks`, with the chunks still to be cut; the next one is number `i`
unfoldable pub even_loop : {A : Type 0} → List A → ℕ → ℕ → ℕ → ℕ → ℕ → List (List A)
even_loop rows base remainder zero i start = []
even_loop rows base remainder (suc count) i start =
    let len = base + (if ltb i remainder then 1 else 0) in
    slice rows start (start + len) ∷ even_loop rows base remainder count (suc i) (start + len)

unfoldable pub even_chunks : {A : Type 0} → List A → ℕ → List (List A)
unfolding even_loop
even_chunks rows size =
    let batch_size = max size 1 in
    let n_chunks = max (ceiling (length rows) batch_size) 1 in
    even_loop rows (length rows / n_chunks) (length rows % n_chunks) n_chunks 0 0
