-- ===== src/Chunks/AlignedFiles.antt =====
-- The chunks of an aligned range, each of which becomes a file.
use mathlib.Core.Path.{subst}
use triodion.Prelude.{
  ℕ, zero, suc, ◌+◌, ◌-◌, ◌*◌, ◌/◌, ◌^◌, ◌≤◌, ◌<◌, ◌≡◌, refl, ap, sym, ◌∙◌, List, [], ◌∷◌, map, ◌⊎◌,
  inl, inr, none, some, ltb, ltb→lt, ltb→le, Bool-cases, arith,
}
use triodion.Prelude.Outcome.{ok}
use triodion.Chunks.Number.{NumberChunk, range, align}
use triodion.Chunks.Ranges.{Tiles, last, next, range_to_chunks-Tiles}
use triodion.Chunks.Subchunks.{subchunk_by_size}
use triodion.Chunks.Aligned.{steps_up, steps_up_reaches, mul_lt_cancel, align_range}

-- `n` whole chunks of `s` numbers, from number `j` of the grid on, and then a chunk of the one number
-- at which the chunk after them starts
abbrev pub grid : ℕ → ℕ → ℕ → List NumberChunk
grid s j zero = range (j * s) (j * s) ∷ []
grid s j (suc n) = range (j * s) (j * s + s - 1) ∷ grid s (suc j) n

module _ (s : ℕ) (pos : 0 < s) where
  Tiles-grid :
      {start end : ℕ} {chunks : List (ℕ × ℕ)} (j n : ℕ)
      → start ≡ j * s
      → end ≡ (j + n) * s
      → Tiles s end start chunks
      → map (λ c. range c.0 c.1) chunks ≡ grid s j n
  Tiles-grid j zero e f (last le lt) =
      let same : (j + 0) * s ≡ j * s = omega arith in rw (e, f, same) refl
  Tiles-grid j (suc n) e f (last le lt) = absurd (grind arith)
  Tiles-grid j zero e f (next follows ends le t) = absurd (grind arith)
  Tiles-grid {start} j (suc n) e f (next {last = final} follows ends le t) =
      let further : suc j + n ≡ j + suc n = omega arith in
      let at_end : final ≡ j * s + s - 1 = omega arith in
      let later = Tiles-grid (suc j) n (grind arith) (f ∙ ap (λ x. x * s) (sym further)) t in
      rw (e, at_end) (ap (λ cs. range (j * s) (j * s + s - 1) ∷ cs) later)

  -- The chunks of a range between two multiples of the size.
  subchunk_by_size-grid :
      {E : Type 0} (j n : ℕ)
      → (j + n) * s + s ≤ 2 ^ 64
      → subchunk_by_size {E = E} (range (j * s) ((j + n) * s)) s ≡ ok (grid s j n)
  unfolding subchunk_by_size
  subchunk_by_size-grid {E} j n fits =
      let (chunks, found, tiles) =
        range_to_chunks-Tiles {E = E} ((j + n) * s) s pos fits (j * s) (grind arith) in
      rw found (ap ok (Tiles-grid j n refl refl tiles))

  -- For a positive size and no overflow, let `j` be the number of the first multiple of the size
  -- from `a` on, and `k` that of the last one up to `b`. If `k` is not above `j`, `align` drops the
  -- range. Otherwise the aligned range, split by the size, gives the whole chunks from number `j` to
  -- number `k - 1`, each from a multiple of the size to just before the next, and after them one
  -- chunk of a single block, the one at `k` times the size, even where the range holds the whole
  -- chunk that starts there.
  pub align_files :
      {E : Type 0} (a b : ℕ)
      → a + s ≤ 2 ^ 64
      → b + s ≤ 2 ^ 64
      → (j : ℕ) × (k : ℕ) × (a ≤ j * s)
        × (j * s < a + s)
        × (k * s ≤ b)
        × (b < k * s + s)
        × (((k ≤ j) × (align {E = E} (range a b) s ≡ ok none))
            ⊎ ((j < k)
                × (c : NumberChunk) × (align {E = E} (range a b) s ≡ ok (some c))
                × (subchunk_by_size {E = E} c s ≡ ok (grid s j (k - j)))))
  align_files {E} a b fa fb =
      let j = steps_up a s in
      let k = b / s in
      let (reaches, near) = steps_up_reaches a s pos in
      (
        j,
        k,
        reaches,
        near,
        grind arith,
        grind arith,
        elim (Bool-cases (ltb (j * s) (k * s))) [
          | inl room ↦
              let below = ltb→lt _ _ room in
              let more : j < k = grind arith in
              let all : j + (k - j) ≡ k = omega arith in
              inr (
                more,
                range (j * s) (k * s),
                align_range a b s pos fa (omega arith) ∙ rw room,
                subst
                    (λ m.
                      subchunk_by_size {E = E} (range (j * s) (m * s)) s ≡ ok (grid s j (k - j)))
                    all (subchunk_by_size-grid j (k - j) (grind arith)),
              )
          | inr tight ↦ inl (
            mul_lt_cancel k j s (omega (arith, ltb→le _ _ tight)),
            align_range a b s pos fa (omega arith) ∙ rw tight,
          )
        ],
      )
