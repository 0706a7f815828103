-- ===== src/Chunks/Ranges.antt =====
-- What `range_to_chunks` returns, away from the end of the `u64` range.
use native.Mathlib.Nat.{zero-add, add-zero, suc-add, add-suc}
use mathlib.Core.List.{append-nil}
use triodion.Prelude.{
  ℕ, zero, suc, ◌+◌, ◌-◌, ◌*◌, ◌^◌, ◌≤◌, ◌<◌, ◌≡◌, refl, sym, ap, List, [], ◌∷◌, ◌++◌, inl, inr,
  arith, All-mono, ◌≡⟨◌⟩◌, ◌∎, length, All, ltb, Bool-cases,
}
use triodion.Prelude.Outcome.{ok}
use triodion.Prelude.Words.{u64_mod, add64}
use triodion.Chunks.Number.{range_from, range_inclusive, range_loop, range_to_chunks}

-- `chunks` tile the numbers from `start` to `end`: each is full, with `size` numbers, and starts
-- where the one before it ended, and the last holds what is left.
pub data Tiles (size end : ℕ) : ℕ → List (ℕ × ℕ) → Type 0 where
  last : {start : ℕ} → start ≤ end → end < start + size → Tiles size end start ((start, end) ∷ [])
  next :
      {start last following : ℕ} {chunks : List (ℕ × ℕ)}
      → following ≡ start + size
      → last + 1 ≡ following
      → following ≤ end
      → Tiles size end following chunks
      → Tiles size end start ((start, last) ∷ chunks)

module _ {E : Type 0} (end size : ℕ) (pos : 0 < size) (fits : end + size ≤ 2 ^ 64) where
  pub range_loop-Tiles :
      (rounds start : ℕ)
      → start ≤ end
      → end < start + rounds
      → (chunks : List (ℕ × ℕ)) × (range_loop {E = E} rounds start end size ≡ ok chunks)
        × Tiles size end start chunks
  unfolding range_loop
  range_loop-Tiles zero start h enough = absurd (omega arith)
  range_loop-Tiles (suc rounds) start h enough = elim (Bool-cases (ltb end (start + size))) [
    | inl final ↦ ((start, end) ∷ [], ground arith, last h (ground arith))
    | inr more ↦
        let e : add64 start size ≡ start + size = ground arith in
        let (chunks, found, tiles) =
          range_loop-Tiles rounds (start + size) (ground arith) (omega arith) in
        (
          (start, start + size - 1) ∷ chunks,
          rw e (ground (arith, found)),
          next refl (omega arith) (ground arith) tiles,
        )
  ]

  -- With no overflow the loop ends, and its chunks tile the range.
  pub range_to_chunks-Tiles :
      (start : ℕ)
      → start ≤ end
      → (chunks : List (ℕ × ℕ)) × (range_to_chunks {E = E} start end size ≡ ok chunks)
        × Tiles size end start chunks
  unfolding range_to_chunks
  range_to_chunks-Tiles start h =
      let (chunks, found, tiles) = range_loop-Tiles u64_mod start h (omega arith) in
      (chunks, ground (arith, found), tiles)

-- The numbers of a list of ranges, in order.
abbrev pub numbers_of : List (ℕ × ℕ) → List ℕ
numbers_of [] = []
numbers_of ((a, b) ∷ chunks) = range_inclusive a b ++ numbers_of chunks

-- A range splits anywhere.
pub range_from-add :
    (start m n : ℕ) → range_from start (m + n) ≡ range_from start m ++ range_from (start + m) n
unfolding range_from
range_from-add start zero n = rw (zero-add, add-zero)
range_from-add start (suc m) n =
    rw (suc-add m n, add-suc start m, ← suc-add start m)
      (ap (◌∷◌ start) (range_from-add (suc start) m n))

pub range_inclusive_split :
    (a b c : ℕ)
    → a ≤ b + 1
    → b ≤ c
    → range_inclusive a c ≡ range_inclusive a b ++ range_inclusive (b + 1) c
unfolding range_inclusive
range_inclusive_split a b c h k =
    range_from a (c + 1 - a)
    ≡⟨ ap (range_from a) (omega arith) ⟩ range_from a ((b + 1 - a) + (c + 1 - (b + 1)))
    ≡⟨ range_from-add a (b + 1 - a) (c + 1 - (b + 1)) ⟩
      range_from a (b + 1 - a) ++ range_from (a + (b + 1 - a)) (c + 1 - (b + 1))
    ≡⟨ ap (λ x. range_from a (b + 1 - a) ++ range_from x (c + 1 - (b + 1))) (omega arith) ⟩
      range_from a (b + 1 - a) ++ range_from (b + 1) (c + 1 - (b + 1)) ∎

module _ {size end : ℕ} (pos : 0 < size) where
  -- The tiles hold every number of the range once, in order.
  pub numbers_of-Tiles :
      {start : ℕ} {chunks : List (ℕ × ℕ)}
      → Tiles size end start chunks
      → numbers_of chunks ≡ range_inclusive start end
  numbers_of-Tiles (last h k) = append-nil _
  numbers_of-Tiles (next {start} {last} e f le t) =
      rw (numbers_of-Tiles t, ← f)
        (sym (range_inclusive_split start last end (omega arith) (omega arith)))

  pub Tiles-All :
      {start : ℕ} {chunks : List (ℕ × ℕ)}
      → Tiles size end start chunks
      → All (λ (c : ℕ × ℕ). (start ≤ c.0) × (c.0 ≤ c.1) × (c.1 < c.0 + size) × (c.1 ≤ end)) chunks
  Tiles-All (last h k) = ((omega arith, h, k, omega arith), tt)
  Tiles-All (next {start} {following} {chunks} e f le t) = (
    (omega arith, omega arith, omega arith, omega arith),
    All-mono _ _ (λ c h. (omega arith, h.1, h.2, h.3)) chunks (Tiles-All t),
  )

  -- There are as few of them as their size allows.
  pub length-Tiles :
      {start : ℕ} {chunks : List (ℕ × ℕ)}
      → Tiles size end start chunks
      → (end - start < length chunks * size) × (length chunks * size < end + 1 - start + size)
  length-Tiles (last h k) = grind arith
  length-Tiles (next e f le t) = grind (arith, length-Tiles t)

-- For a positive size and no overflow, `range_to_chunks` ends. Its chunks, one after the other,
-- hold exactly the numbers from `start` to `end`; each but the last is full (`Tiles`), and there
-- are no more of them than the size asks for.
pub range_to_chunks_exact :
    {E : Type 0} (start end size : ℕ)
    → 0 < size
    → start ≤ end
    → end + size ≤ 2 ^ 64
    → (chunks : List (ℕ × ℕ)) × (range_to_chunks {E = E} start end size ≡ ok chunks)
      × Tiles size end start chunks
      × (numbers_of chunks ≡ range_inclusive start end)
      × (length chunks * size < end + 1 - start + size)
range_to_chunks_exact start end size pos h fits =
    let (chunks, found, tiles) = range_to_chunks-Tiles end size pos fits start h in
    (chunks, found, tiles, numbers_of-Tiles pos tiles, (length-Tiles pos tiles).1)
