-- ===== src/Cli/Search.antt =====
-- What the binary search over the blocks of crates/cli/src/parse/timestamps.rs finds, and that it
-- ends.
use native.Mathlib.Nat.{le_of_lt, lt_of_le_of_lt, lt_of_lt_of_le}
use triodion.Prelude.{
  ℕ, zero, suc, ◌+◌, ◌-◌, ◌/◌, ◌^◌, ◌≤◌, ◌<◌, ◌≡◌, refl, ◌∙◌, ◌⊎◌, inl, inr, true, leb, ◌==◌,
  if◌then◌else◌, Bool-cases, arith,
}
use triodion.Prelude.Outcome.{Outcome, ok}
use triodion.Prelude.Words.{add64}
use triodion.Errors.{ParseError}
use triodion.Cli.Timestamps.{search_loop, block_at_timestamp}

-- Block `b` was current at `timestamp`: it is not younger, unless all blocks are, and every block
-- after it is younger, unless `b` has that timestamp itself.
abbrev pub CurrentAt : (ℕ → ℕ) → ℕ → ℕ → ℕ → Type 0
CurrentAt times latest timestamp b =
    (b ≤ latest)
    × ((times b ≤ timestamp) ⊎ ((b ≡ 0) × (timestamp < times 0)))
    × ((n : ℕ)
        → b < n
        → n ≤ latest
        → (timestamp ≤ times n) × ((timestamp < times n) ⊎ (times b ≡ timestamp)))

pub order_cases : (a b : ℕ) → (a < b) ⊎ ((a ≡ b) ⊎ (b < a))
order_cases a b = ground arith

-- One round of the loop, by the order of the probed block's timestamp and `timestamp`.
module _ (timestamp : ℕ) (timestamp_of : ℕ → Outcome ParseError ℕ) (rounds low high mid t : ℕ)
    (more : leb low high ≡ true) (middle : mid ≡ low + (high - low) / 2)
    (probed : timestamp_of mid ≡ ok t) where
  pub search_loop_equal :
      t ≡ timestamp → search_loop timestamp timestamp_of (suc rounds) low high ≡ ok mid
  unfolding search_loop
  search_loop_equal e = ground arith

  pub search_loop_less :
      t < timestamp
      → search_loop timestamp timestamp_of (suc rounds) low high
        ≡ search_loop timestamp timestamp_of rounds (add64 mid 1) high
  unfolding search_loop
  search_loop_less h = ground arith

  pub search_loop_greater :
      timestamp < t
      → search_loop timestamp timestamp_of (suc rounds) low high
        ≡ (if mid == 0 then ok 0 else search_loop timestamp timestamp_of rounds low (mid - 1))
  unfolding search_loop
  search_loop_greater h = ground arith

module _ (times : ℕ → ℕ) (latest timestamp : ℕ) (timestamp_of : ℕ → Outcome ParseError ℕ)
    (answers : (n : ℕ) → n ≤ latest → timestamp_of n ≡ ok (times n))
    (ordered : (m n : ℕ) → m ≤ n → n ≤ latest → times m ≤ times n)
    (fits : latest + 1 < 2 ^ 64) where
  search_loop-CurrentAt :
      (rounds low high : ℕ)
      → high + 1 < low + rounds
      → low ≤ high + 1
      → high ≤ latest
      → ((n : ℕ) → n < low → times n < timestamp)
      → ((n : ℕ) → high < n → n ≤ latest → timestamp < times n)
      → (b : ℕ) × (search_loop timestamp timestamp_of rounds low high ≡ ok b)
        × CurrentAt times latest timestamp b
  unfolding search_loop
  search_loop-CurrentAt zero low high enough near inside older younger = absurd (omega arith)
  search_loop-CurrentAt (suc rounds) low high enough near inside older younger =
      let mid : ℕ = low + (high - low) / 2 in
      let t : ℕ = times mid in
      elim (Bool-cases (leb low high)) [
        | inr done ↦ (
          high,
          ground arith,
          (
            inside,
            inl (le_of_lt (older high (ground arith))),
            λ n h k. (le_of_lt (younger n h k), inl (younger n h k)),
          ),
        )
        | inl more ↦
            let (in_low, in_high) : (low ≤ mid) × (mid ≤ high) = (omega arith, ground arith) in
            let probed = answers mid (omega arith) in
            elim (order_cases t timestamp) [
              | inl less ↦
                  let (b, found, is) =
                    search_loop-CurrentAt rounds (mid + 1) high (omega arith) (omega arith) inside
                      (λ n h. lt_of_le_of_lt (ordered n mid (omega arith) (omega arith)) less)
                      younger in
                  let e : add64 mid 1 ≡ mid + 1 = ground arith in
                  (
                    b,
                    search_loop_less timestamp timestamp_of rounds low high mid t more refl probed
                          less
                        ∙ rw e found,
                    is,
                  )
              | inr (inl equal) ↦ (
                mid,
                search_loop_equal timestamp timestamp_of rounds low high mid t more refl probed
                    equal,
                (
                  omega arith,
                  inl (omega arith),
                  λ n h k. (rw (← equal) (ordered mid n (omega arith) k), inr equal),
                ),
              )
              | inr (inr greater) ↦
                  let step =
                    search_loop_greater timestamp timestamp_of rounds low high mid t more refl
                      probed greater in
                  let after : (n : ℕ) → mid ≤ n → n ≤ latest → timestamp < times n =
                    λ n h k. lt_of_lt_of_le greater (ordered mid n h k) in
                  elim (Bool-cases (mid == 0)) [
                    | inl first ↦
                        let younger_all : (n : ℕ) → n ≤ latest → timestamp < times n =
                          λ n k. after n (ground arith) k in
                        (
                          0,
                          step ∙ rw first refl,
                          (
                            omega arith,
                            inr (refl, younger_all 0 (omega arith)),
                            λ n h k. (le_of_lt (younger_all n k), inl (younger_all n k)),
                          ),
                        )
                    | inr later ↦
                        let (b, found, is) =
                          search_loop-CurrentAt rounds low (mid - 1) (ground arith) (ground arith)
                            (omega arith) older (λ n h k. after n (ground arith) k) in
                        (b, step ∙ rw later found, is)
                  ]
            ]
      ]

  -- If the node has every block up to `latest`, with timestamps that never decrease, and `latest + 1`
  -- fits a `u64`, the search ends and returns the block that was current at `timestamp`: the last
  -- that is not younger, or one with exactly that timestamp, or block 0 when all are younger.
  pub block_at_timestamp-CurrentAt :
      (b : ℕ) × (block_at_timestamp timestamp latest timestamp_of ≡ ok b)
      × CurrentAt times latest timestamp b
  unfolding block_at_timestamp
  block_at_timestamp-CurrentAt =
      search_loop-CurrentAt (latest + 2) 0 latest (omega arith) (omega arith) (omega arith)
        (λ n h. absurd (omega arith)) (λ n h k. absurd (omega arith))
