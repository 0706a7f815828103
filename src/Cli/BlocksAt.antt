-- ===== src/Cli/BlocksAt.antt =====
-- crates/cli/src/parse/timestamps.rs: the block numbers for a file of timestamps.
use triodion.Prelude.{ℕ, ◌+◌, ◌^◌, ◌≤◌, ◌<◌, ◌≡◌, refl, ap, List, [], ◌∷◌, In, some, inl, inr}
use triodion.Prelude.Outcome.{ok, ◌>>=◌, ok_or, try_map, after_ok}
use triodion.Errors.{parse_error}
use triodion.Cli.Outside.{Node}
use triodion.Cli.Distinct.{Ascending, dedup-sort_unstable}
use triodion.Cli.Search.{CurrentAt, block_at_timestamp-CurrentAt}
use triodion.Cli.Timestamps.{
  block_at_timestamp, get_latest_block_number, block_timestamp, timestamps_to_block_numbers, dedup,
  sort_unstable,
}

-- The node has the blocks up to `latest`, whose timestamps never decrease.
pub record Chain (source : Node) (times : ℕ → ℕ) (latest : ℕ) : Type 0 where
  pub head : source.block_number ≡ some latest
  pub blocks : (n : ℕ) → n ≤ latest → source.block_timestamp n ≡ some (some (times n))
  pub ordered : (m n : ℕ) → m ≤ n → n ≤ latest → times m ≤ times n
  pub fits : latest + 1 < 2 ^ 64

module _ {source : Node} {times : ℕ → ℕ} {latest : ℕ} (chain : Chain source times latest) where
  found_at :
      (timestamp : ℕ)
      → (b : ℕ) × (block_at_timestamp timestamp latest (block_timestamp source) ≡ ok b)
        × CurrentAt times latest timestamp b
  unfolding block_timestamp
  found_at timestamp =
      block_at_timestamp-CurrentAt times latest timestamp (block_timestamp source)
        (λ n h. rw (chain.blocks n h) refl) chain.ordered chain.fits

  -- one search for each timestamp
  all_found :
      (timestamps : List ℕ)
      → (bs : List ℕ) × (try_map
            (λ timestamp. block_at_timestamp timestamp latest (block_timestamp source))
            timestamps
          ≡ ok bs)
        × ((b : ℕ) → In b bs → (t : ℕ) × In t timestamps × CurrentAt times latest t b)
        × ((t : ℕ) → In t timestamps → (b : ℕ) × In b bs × CurrentAt times latest t b)
  unfolding try_map
  all_found [] = ([], refl, λ b h. absurd h, λ t h. absurd h)
  all_found (t ∷ ts) =
      let (b, at, is) = found_at t in
      let (bs, rest, from, to) = all_found ts in
      (
        b ∷ bs,
        rw (at, rest) refl,
        λ c h. elim h [
          | inl e ↦ (t, inl refl, rw e is)
          | inr k ↦ let (u, in_ts, is') = from c k in (u, inr in_ts, is')
        ],
        λ u h. elim h [
          | inl e ↦ (b, inl refl, rw e is)
          | inr k ↦ let (c, in_bs, is') = to u k in (c, inr in_bs, is')
        ],
      )

  collected :
      (bs timestamps : List ℕ)
      → try_map
          (λ timestamp. block_at_timestamp timestamp latest (block_timestamp source))
          timestamps
        ≡ ok bs
      → timestamps_to_block_numbers source timestamps ≡ ok (dedup (sort_unstable bs))
  unfolding timestamps_to_block_numbers get_latest_block_number block_at_timestamp
  collected bs timestamps found =
      after_ok
        (λ head.
          try_map (λ timestamp. block_at_timestamp timestamp head (block_timestamp source))
            timestamps
          >>= λ found_blocks. ok (dedup (sort_unstable found_blocks)))
        (ap (λ o. ok_or o (parse_error "Error retrieving latest block number")) chain.head)
        (after_ok (λ found_blocks. ok (dedup (sort_unstable found_blocks))) found refl)

  -- On a node that has every block up to its head, with timestamps that never decrease, the block
  -- numbers for a list of timestamps are found without an error. They are strictly ascending, each
  -- was current at one of the timestamps, and each timestamp has one that was current at it.
  pub timestamps_to_block_numbers-CurrentAt :
      (timestamps : List ℕ)
      → (bs : List ℕ) × (timestamps_to_block_numbers source timestamps ≡ ok bs)
        × Ascending bs
        × ((b : ℕ) → In b bs → (t : ℕ) × In t timestamps × CurrentAt times latest t b)
        × ((t : ℕ) → In t timestamps → (b : ℕ) × In b bs × CurrentAt times latest t b)
  timestamps_to_block_numbers-CurrentAt timestamps =
      let (bs, found, from, to) = all_found timestamps in
      let (ascending, there, back) = dedup-sort_unstable bs in
      (
        dedup (sort_unstable bs),
        collected bs timestamps found,
        ascending,
        λ b h. from b (there b h),
        λ t h. let (b, in_bs, is) = to t h in (b, back b in_bs, is),
      )
