-- ===== src/Cli/Reorg.antt =====
-- `apply_reorg_buffer` of crates/cli/src/parse/blocks.rs: the chunks that it keeps.
use mathlib.Core.List.{foldl}
use native.Mathlib.Nat.{le_trans}
use mathlib.Core.Path.{subst}
use triodion.Prelude.{
  ℕ, ◌-◌, ◌≤◌, ◌<◌, ◌≡◌, refl, sym, ◌∙◌, inl, inr, ◌⊎◌, true, List, [], ◌∷◌, Option, none, some,
  false, leb→le, ltb→lt, All, In, leb, ltb, Bool-cases, arith,
}
use triodion.Prelude.Order.{nat_ord, max_of, maximum}
use triodion.Prelude.Outcome.{ok, err}
use triodion.Prelude.Text.{append, decimal}
use triodion.Errors.{ParseError, parse_error}
use triodion.Chunks.Interface.{filter_map}
use triodion.Chunks.Number.{NumberChunk, max_value, values}
use triodion.Chunks.Extremes.{IsProper, number_chunk-Describes}
use triodion.Cli.Outside.{Node}
use triodion.Cli.BlockInputs.{old_enough, apply_reorg_buffer}

-- Every block of the chunk is at most `bound`, and it has one.
abbrev pub UpTo : ℕ → NumberChunk → Type 0
UpTo bound c = ((b : ℕ) × In b (values c)) × ((b : ℕ) → In b (values c) → b ≤ bound)

-- A value that no other exceeds.
abbrev pub Greatest : ℕ → List ℕ → Type 0
Greatest m xs = In m xs × ((b : ℕ) → In b xs → b ≤ m)

Greatest-cons_le : (m a x : ℕ) (xs : List ℕ) → a ≤ x → Greatest m (x ∷ xs) → Greatest m (a ∷ x ∷ xs)
Greatest-cons_le m a x xs le (found, above) = (
  inr found,
  λ b h. elim h [ inl k ↦ le_trans (rw k le) (above x (inl refl)) | inr k ↦ above b k ],
)

Greatest-cons_ge : (m a x : ℕ) (xs : List ℕ) → x ≤ a → Greatest m (a ∷ xs) → Greatest m (a ∷ x ∷ xs)
Greatest-cons_ge m a x xs le (found, above) = (
  elim found [ inl k ↦ inl k | inr k ↦ inr (inr k) ],
  λ b h. elim h [
    | inl k ↦ above b (inl k)
    | inr (inl k) ↦ le_trans (rw k le) (above a (inl refl))
    | inr (inr k) ↦ above b (inr k)
  ],
)

foldl-max_of-step :
    (a x m : ℕ) (xs : List ℕ) → max_of a x ≡ m → foldl max_of a (x ∷ xs) ≡ foldl max_of m xs
foldl-max_of-step a x m xs e = rw (foldl, e) refl

foldl-max_of-Greatest : (a : ℕ) (xs : List ℕ) → Greatest (foldl max_of a xs) (a ∷ xs)
foldl-max_of-Greatest a [] = (inl refl, λ b h. elim h [ inl e ↦ omega arith | inr k ↦ absurd k ])
foldl-max_of-Greatest a (x ∷ xs) = elim (Bool-cases (leb a x)) [
  | inl up ↦
      let e = foldl-max_of-step a x x xs (ground arith) in
      subst (λ m. Greatest m (a ∷ x ∷ xs)) (sym e)
        (Greatest-cons_le _ a x xs (leb→le a x up) (foldl-max_of-Greatest x xs))
  | inr down ↦
      let e = foldl-max_of-step a x a xs (ground arith) in
      subst (λ m. Greatest m (a ∷ x ∷ xs)) (sym e)
        (Greatest-cons_ge _ a x xs (ground arith) (foldl-max_of-Greatest a xs))
]

-- What `Iterator::max` finds.
maximum-cases :
    (xs : List ℕ)
    → ((maximum xs ≡ none) × (xs ≡ [])) ⊎ ((m : ℕ) × (maximum xs ≡ some m) × Greatest m xs)
unfolding maximum
maximum-cases [] = inl (refl, refl)
maximum-cases (x ∷ xs) = inr (foldl max_of x xs, refl, foldl-max_of-Greatest x xs)

old_enough_none : (bound : ℕ) (c : NumberChunk) → max_value c ≡ none → old_enough bound c ≡ none
unfolding old_enough
old_enough_none bound c e = ground arith

old_enough_low :
    (bound : ℕ) (c : NumberChunk) (m : ℕ)
    → max_value c ≡ some m
    → leb m bound ≡ true
    → old_enough bound c ≡ some c
unfolding old_enough
old_enough_low bound c m e h = ground arith

old_enough_high :
    (bound : ℕ) (c : NumberChunk) (m : ℕ)
    → max_value c ≡ some m
    → leb m bound ≡ false
    → old_enough bound c ≡ none
unfolding old_enough
old_enough_high bound c m e h = ground arith

old_enough-cases :
    (bound : ℕ) (c : NumberChunk)
    → IsProper c
    → ((old_enough bound c ≡ some c) × UpTo bound c)
      ⊎ ((old_enough bound c ≡ none) × (UpTo bound c → ⊥))
old_enough-cases bound c proper =
    let is : max_value c ≡ maximum (values c) = (number_chunk-Describes c proper).max_is in
    elim (maximum-cases (values c)) [
      | inl (e, empty) ↦
          inr (old_enough_none bound c (is ∙ e), λ h. subst (λ vs. In h.0.0 vs) empty h.0.1)
      | inr (m, e, (member, above)) ↦ elim (Bool-cases (leb m bound)) [
        | inl low ↦ inl (
          old_enough_low bound c m (is ∙ e) low,
          ((m, member), λ b h. le_trans (above b h) (leb→le m bound low)),
        )
        | inr high ↦
            inr
              (old_enough_high bound c m (is ∙ e) high, λ h. let le = h.1 m member in ground arith)
      ]
    ]

module _ {A B : Type 0} (f : A → Option B) where
  filter_map-nil : filter_map f [] ≡ []
  unfolding filter_map
  filter_map-nil = refl

  filter_map-some :
      (x : A) (y : B) (xs : List A) → f x ≡ some y → filter_map f (x ∷ xs) ≡ y ∷ filter_map f xs
  unfolding filter_map
  filter_map-some x y xs e = rw (filter_map, e) refl

  filter_map-none : (x : A) (xs : List A) → f x ≡ none → filter_map f (x ∷ xs) ≡ filter_map f xs
  unfolding filter_map
  filter_map-none x xs e = rw (filter_map, e) refl

filter_map-old_enough :
    (bound : ℕ) (cs : List NumberChunk) (c : NumberChunk)
    → All IsProper cs
    → (In c (filter_map (old_enough bound) cs) → In c cs × UpTo bound c)
      × (In c cs → UpTo bound c → In c (filter_map (old_enough bound) cs))
filter_map-old_enough bound [] c proper =
    rw (filter_map-nil (old_enough bound)) (λ h. absurd h, λ h k. h)
filter_map-old_enough bound (x ∷ cs) c (px, proper) =
    let (from, to) = filter_map-old_enough bound cs c proper in
    elim (old_enough-cases bound x px) [
      | inl (kept, up_to) ↦ rw (filter_map-some (old_enough bound) x x cs kept) (
        λ h. elim h [ inl e ↦ (inl e, rw e up_to) | inr k ↦ (inr (from k).0, (from k).1) ],
        λ h u. elim h [ inl e ↦ inl e | inr k ↦ inr (to k u) ],
      )
      | inr (dropped, not_up_to) ↦ rw (filter_map-none (old_enough bound) x cs dropped) (
        λ h. (inr (from h).0, (from h).1),
        λ h u. elim h [ inl e ↦ absurd (not_up_to (subst (UpTo bound) e u)) | inr k ↦ to k u ],
      )
    ]

-- the error for a buffer that is deeper than the chain
abbrev too_deep : ℕ → ℕ → ParseError
too_deep latest buffer = parse_error (
    append "reorg buffer "
      (append (decimal buffer) (append " is deeper than the chain head " (decimal latest))))

-- For a positive buffer no deeper than the chain, and ranges that are not inverted and end within
-- `u64`, the kept chunks are exactly those that have a block and whose every block is at least the
-- buffer below the head of the chain. A deeper buffer is an error.
pub apply_reorg_buffer-UpTo :
    (source : Node) (latest buffer : ℕ) (chunks : List NumberChunk)
    → source.block_number ≡ some latest
    → 0 < buffer
    → All IsProper chunks
    → ((latest < buffer) × (e : ParseError) × (apply_reorg_buffer source chunks buffer ≡ err e))
      ⊎ ((kept : List NumberChunk) × (buffer ≤ latest)
          × (apply_reorg_buffer source chunks buffer ≡ ok kept)
          × ((c : NumberChunk)
              → (In c kept → In c chunks × UpTo (latest - buffer) c)
                × (In c chunks → UpTo (latest - buffer) c → In c kept)))
unfolding apply_reorg_buffer
apply_reorg_buffer-UpTo source latest buffer chunks head pos proper =
    elim (Bool-cases (ltb latest buffer)) [
      | inl deep ↦ inl (ltb→lt latest buffer deep, too_deep latest buffer, ground arith)
      | inr shallow ↦ inr (
        filter_map (old_enough (latest - buffer)) chunks,
        ground arith,
        ground arith,
        λ c. filter_map-old_enough (latest - buffer) chunks c proper,
      )
    ]
