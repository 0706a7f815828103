-- ===== src/Cli/SearchEnds.antt =====
-- The binary search of crates/cli/src/parse/timestamps.rs ends whatever the node answers.
use triodion.Prelude.{
  ℕ, zero, suc, ◌+◌, ◌-◌, ◌/◌, ◌^◌, ◌≤◌, ◌<◌, ◌≡◌, refl, ◌∙◌, ◌⊎◌, inl, inr, leb, ◌==◌, Bool-cases,
  arith,
}
use triodion.Prelude.Outcome.{Outcome, ok, err}
use triodion.Prelude.Words.{add64}
use triodion.Errors.{ParseError}
use triodion.Cli.Search.{order_cases, search_loop_equal, search_loop_less, search_loop_greater}
use triodion.Cli.Timestamps.{search_loop, block_at_timestamp}

-- A block up to `latest`, or the error of a probe of such a block.
abbrev pub Ended : ℕ → (ℕ → Outcome ParseError ℕ) → Outcome ParseError ℕ → Type 0
Ended latest timestamp_of r =
    ((b : ℕ) × (r ≡ ok b) × (b ≤ latest))
    ⊎ ((n : ℕ) × (e : ParseError) × (n ≤ latest) × (timestamp_of n ≡ err e) × (r ≡ err e))

module _ (latest timestamp : ℕ) (timestamp_of : ℕ → Outcome ParseError ℕ)
    (answers : (n : ℕ)
      → n ≤ latest
      → ((t : ℕ) × (timestamp_of n ≡ ok t)) ⊎ ((e : ParseError) × (timestamp_of n ≡ err e)))
    (fits : latest + 1 < 2 ^ 64) where
  search_loop-Ended :
      (rounds low high : ℕ)
      → high + 1 < low + rounds
      → low ≤ high + 1
      → high ≤ latest
      → Ended latest timestamp_of (search_loop timestamp timestamp_of rounds low high)
  unfolding search_loop
  search_loop-Ended zero low high enough near inside = absurd (omega arith)
  search_loop-Ended (suc rounds) low high enough near inside =
      let mid : ℕ = low + (high - low) / 2 in
      elim (Bool-cases (leb low high)) [
        | inr done ↦ inl (high, ground arith, inside)
        | inl more ↦
            let (in_low, in_high) : (low ≤ mid) × (mid ≤ high) = (omega arith, ground arith) in
            elim (answers mid (omega arith)) [
              | inr (e, failed) ↦ inr (mid, e, omega arith, failed, ground arith)
              | inl (t, probed) ↦ elim (order_cases t timestamp) [
                | inl less ↦
                    let w : add64 mid 1 ≡ mid + 1 = ground arith in
                    rw
                      (
                        search_loop_less timestamp timestamp_of rounds low high mid t more refl
                            probed less,
                        w,
                      )
                      (search_loop-Ended rounds (mid + 1) high (omega arith) (omega arith) inside)
                | inr (inl equal) ↦
                    rw
                      (search_loop_equal timestamp timestamp_of rounds low high mid t more refl
                        probed equal)
                      (inl (mid, refl, omega arith))
                | inr (inr greater) ↦
                    let step =
                      search_loop_greater timestamp timestamp_of rounds low high mid t more refl
                        probed greater in
                    elim (Bool-cases (mid == 0)) [
                      | inl first ↦ inl (0, step ∙ rw first refl, omega arith)
                      | inr later ↦
                          rw (step, later)
                            (search_loop-Ended rounds low (mid - 1) (ground arith) (ground arith)
                              (omega arith))
                    ]
              ]
            ]
      ]

  -- If each probe of a block up to `latest` gives a timestamp or an error, in whatever order, the
  -- search ends: it returns a block up to `latest`, or the error that one of its probes gave.
  pub block_at_timestamp-Ended :
      Ended latest timestamp_of (block_at_timestamp timestamp latest timestamp_of)
  unfolding block_at_timestamp
  block_at_timestamp-Ended =
      search_loop-Ended (latest + 2) 0 latest (omega arith) (omega arith) (omega arith)
