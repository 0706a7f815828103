-- ===== src/Partitions/LogMatches.antt =====
-- The log filter and the test of logs of crates/freeze/src/types/rpc_params.rs select the same logs.
use triodion.Prelude.{
  ℕ, String, Bool, true, false, ◌&&◌, Option, none, some, [], ◌∷◌, length, get_elem?, ◌≡◌, refl,
  sym, ap, ◌∙◌, ◌⊎◌, inl, inr, leb, ◌==◌, Bool-cases, Option-cases, arith,
}
use triodion.Prelude.Order.{Bytes}
use triodion.Errors.{CollectError}
use triodion.Partitions.Types.{Params}
use triodion.Partitions.CallParams.{
  Filter, Log, wrong_width, fixed_from_slice, field_of, block_range, ethers_log_filter, equal_bytes,
  topic_is, log_address_matches, topic_matches, matches_logs,
}

-- An address has 20 bytes and a topic has 32.
abbrev pub WellFormed : Log → Type 0
WellFormed log =
    (length log.address ≡ 20)
    × ((i : ℕ) (topic : Bytes) → get_elem? log.topics i ≡ some topic → length topic ≡ 32)

-- What a filter asks of one field of a log.
abbrev pub wanted : Option Bytes → Bytes → Bool
wanted none bytes = true
wanted (some want) bytes = equal_bytes bytes want

abbrev pub topic_wanted : Option Bytes → Option Bytes → Bool
topic_wanted none topic = true
topic_wanted (some want) topic = topic_is topic want

-- What the documentation of `eth_getLogs` says of a filter.
abbrev pub accepted : Filter → Log → Bool
accepted f log =
    (leb f.from_block log.block && leb log.block f.to_block)
    && (wanted f.address log.address
        && (topic_wanted f.event_signature (get_elem? log.topics 0)
            && (topic_wanted f.topic1 (get_elem? log.topics 1)
                && (topic_wanted f.topic2 (get_elem? log.topics 2)
                    && topic_wanted f.topic3 (get_elem? log.topics 3)))))

some_inj : {A : Type 0} {a b : A} → ◌≡◌ {A = Option A} (some a) (some b) → a ≡ b
some_inj h = cc

equal_bytes-length : (xs ys : Bytes) → equal_bytes xs ys ≡ true → length xs ≡ length ys
equal_bytes-length [] [] h = refl
equal_bytes-length [] (y ∷ ys) h = cc
equal_bytes-length (x ∷ xs) [] h = cc
equal_bytes-length (x ∷ xs) (y ∷ ys) h = omega (arith, equal_bytes-length xs ys (ground (arith, h)))

-- A field is taken as it is, where it has the width, and refused otherwise.
field_of-width :
    (width : ℕ) (want : Option Bytes) (name : String)
    → ((field_of width want name ≡ inr want)
        × ((bytes : Bytes) → want ≡ some bytes → (length bytes == width) ≡ true))
      ⊎ ((e : CollectError) × (bytes : Bytes) × (field_of width want name ≡ inl e)
          × (want ≡ some bytes)
          × ((length bytes == width) ≡ false))
unfolding field_of fixed_from_slice
field_of-width width none name = inl (refl, λ bytes h. absurd cc)
field_of-width width (some bytes) name = elim (Bool-cases (length bytes == width)) [
  | inl fits ↦
      inl (rw (fits) refl, λ other h. ap (λ b. length b == width) (sym (some_inj h)) ∙ fits)
  | inr other ↦ inr (wrong_width width bytes name, bytes, rw (other) refl, refl, other)
]

address_agrees :
    (log : Log) (want : Option Bytes)
    → ((bytes : Bytes) → want ≡ some bytes → (length bytes == 20) ≡ true)
    → log_address_matches log want ≡ wanted want log.address
unfolding log_address_matches
address_agrees log none fits = refl
address_agrees log (some bytes) fits = ground (arith, fits bytes refl)

topic_agrees :
    (log : Log) (i : ℕ) (want : Option Bytes)
    → topic_matches log i want ≡ topic_wanted want (get_elem? log.topics i)
unfolding topic_matches
topic_agrees log i none = refl
topic_agrees log i (some bytes) = refl

address_differs :
    (log : Log) (want : Option Bytes) (bytes : Bytes)
    → want ≡ some bytes
    → (length bytes == 20) ≡ false
    → log_address_matches log want ≡ false
unfolding log_address_matches
address_differs log want bytes e h = rw (e) (ground (arith, h))

topic_differs :
    (log : Log) (i : ℕ) (want : Option Bytes) (bytes : Bytes)
    → WellFormed log
    → want ≡ some bytes
    → (length bytes == 32) ≡ false
    → topic_matches log i want ≡ false
unfolding topic_matches
topic_differs log i want bytes (sized, topics) e h =
    rw (e) (elim (Option-cases (get_elem? log.topics i)) [
      | inl missing ↦ rw (missing) refl
      | inr (topic, found) ↦ rw (found) (elim (Bool-cases (equal_bytes topic bytes)) [
        | inr other ↦ other
        | inl same ↦
            let a = equal_bytes-length topic bytes same in
            let b = topics i topic found in absurd (ground (arith, h, a, b))
      ])
    ])

module _ (accepts : Filter → Log → Bool)
    (documented : (f : Filter) (log : Log) → accepts f log ≡ accepted f log) where
  abbrev in_range : ℕ × ℕ → Log → Bool
  in_range (start, end) log = leb start log.block && leb log.block end

  -- The filter of the parameters selects the logs of the blocks that pass the test, or there is none, and no log passes it.
  abbrev pub Selects : ℕ × ℕ → Params → Type 0
  Selects range p =
      ((f : Filter) × (ethers_log_filter p ≡ inr f)
        × ((log : Log)
            → accepts f log
              ≡ (in_range range log && (log_address_matches log p.address && matches_logs log p))))
      ⊎ ((e : CollectError) × (ethers_log_filter p ≡ inl e)
          × ((log : Log)
              → WellFormed log
              → (log_address_matches log p.address && matches_logs log p) ≡ false))

  -- If the node selects logs as documented, then, for parameters with a block range, the filter that is sent for them
  -- selects exactly the logs of the range that pass the test of their address and topics, or a value has
  -- the wrong width, the filter is an error, and no log passes the test.
  pub ethers_log_filter-Selects :
      (p : Params) (range : ℕ × ℕ) → p.block_range ≡ some range → Selects range p
  unfolding ethers_log_filter matches_logs block_range
  ethers_log_filter-Selects p range given = elim (field_of-width 20 p.address "address") [
    | inr (e, bytes, bad, at, other) ↦ inr (
      e,
      rw (given, bad) refl,
      λ log well. ground (arith, address_differs log p.address bytes at other),
    )
    | inl (a, a_fits) ↦ elim (field_of-width 32 p.topic0 "topic0") [
      | inr (e, bytes, bad, at, other) ↦ inr (
        e,
        rw (given, a, bad) refl,
        λ log well. ground (arith, topic_differs log 0 p.topic0 bytes well at other),
      )
      | inl (t0, fits0) ↦ elim (field_of-width 32 p.topic1 "topic1") [
        | inr (e, bytes, bad, at, other) ↦ inr (
          e,
          rw (given, a, t0, bad) refl,
          λ log well. ground (arith, topic_differs log 1 p.topic1 bytes well at other),
        )
        | inl (t1, fits1) ↦ elim (field_of-width 32 p.topic2 "topic2") [
          | inr (e, bytes, bad, at, other) ↦ inr (
            e,
            rw (given, a, t0, t1, bad) refl,
            λ log well. ground (arith, topic_differs log 2 p.topic2 bytes well at other),
          )
          | inl (t2, fits2) ↦ elim (field_of-width 32 p.topic3 "topic3") [
            | inr (e, bytes, bad, at, other) ↦ inr (
              e,
              rw (given, a, t0, t1, t2, bad) refl,
              λ log well. ground (arith, topic_differs log 3 p.topic3 bytes well at other),
            )
            | inl (t3, fits3) ↦
                let f : Filter = record {
                  from_block = range.0;
                  to_block = range.1;
                  address = p.address;
                  event_signature = p.topic0;
                  topic1 = p.topic1;
                  topic2 = p.topic2;
                  topic3 = p.topic3;
                } in
                inl (
                  f,
                  rw (given, a, t0, t1, t2, t3) refl,
                  λ log.
                      documented f log
                      ∙ sym (
                          rw
                            (
                              address_agrees log p.address a_fits,
                              topic_agrees log 0 p.topic0,
                              topic_agrees log 1 p.topic1,
                              topic_agrees log 2 p.topic2,
                              topic_agrees log 3 p.topic3,
                            )
                            refl),
                )
          ]
        ]
      ]
    ]
  ]
