-- ===== src/Batch/ReadsSlots.antt =====
-- `get_storage_at_many`, `read_storage_slots` and `read_balances` of crates/freeze/src/types/sources.rs,
-- over a node that runs the injected extractor.
use mathlib.Core.Path.{subst}
use triodion.Prelude.{
  ℕ, ◌≤◌, ◌<◌, ◌^◌, ◌≡◌, refl, sym, ap, ◌∙◌, String, false, ◌==◌, ==_iff, none, List, [], ◌∷◌, ◌++◌,
  map, length, concat, ◌⊎◌, inl, inr, All, All-split, Bool-cases, Option-cases, at_none, at_some,
  when_true, when_false, if◌then◌else◌, arith,
}
use triodion.Prelude.Order.{Bytes}
use triodion.Prelude.Outcome.{
  ok, try_map-ok, err_is_not_ok, returned, and_then, Settles, returned-Settles, bind-Settles,
  ok_inj, after_ok,
}
use triodion.Errors.{CollectError}
use triodion.Batch.Grouping.{chunks}
use triodion.Batch.GroupingRows.{chunks-concat, chunks-sizes}
use triodion.Batch.Override.{
  StateReader, storage, AccountOverride, request, calldata, be_bytes, from_be_bytes, uses_sentinel,
  sentinel_slot, sentinel_value, decode_response, overrides, call_target, refuses_target,
}
use triodion.Batch.OverrideAnswers.{Proves, decode_response-Verified, decode_response-Proves}
use triodion.Batch.Extractor.{answer-Proves, slot_word}
use triodion.Batch.Support.{OverrideSupport}
use triodion.Batch.Reads.{get_storage_at_many, read_storage_slots}
use triodion.Batch.ReadsLoop.{each, read_loop-ReadsEach}

-- An answer to fewer than 2^58 words settles.
decode_response-Settles :
    (show_word : Bytes → String) (reader : StateReader) (bytes : Bytes) (n : ℕ)
    → n < 2 ^ 58
    → Settles (decode_response show_word reader bytes n)
decode_response-Settles show_word reader bytes n small =
    elim (decode_response-Verified show_word reader bytes n small) [
      | inl (words, e, proves) ↦ inl (words, e)
      | inr (failure, e, marked, none_proven) ↦ inr (failure, e)
    ]

get_storage_at_many-Settles :
    (show_word show_address : Bytes → String)
    (call : Bytes → Bytes → AccountOverride → CollectError ⊎ Bytes)
    (get_storage_at : Bytes → ℕ → CollectError ⊎ ℕ) (get_balance : Bytes → CollectError ⊎ ℕ)
    (address : Bytes) (slots : List ℕ)
    → length slots ≤ 1000
    → Settles
        (get_storage_at_many show_word show_address call get_storage_at get_balance address slots)
unfolding get_storage_at_many
get_storage_at_many-Settles show_word show_address call get_storage_at get_balance address slots
      small =
    elim (Option-cases (refuses_target storage address)) [
      | inl allowed ↦ subst Settles (sym (at_none _ _ allowed)) (
          bind-Settles _ _ (returned-Settles _) (λ output.
            decode_response-Settles show_word storage output (length slots) (omega arith)))
      | inr (why, refused) ↦ inr (_, at_some _ _ refused)
    ]

map_same : (xs : List ℕ) → map (λ n. n) xs ≡ xs
map_same [] = refl
map_same (x ∷ xs) = ap (◌∷◌ x) (map_same xs)

module _ (show_word show_address : Bytes → String)
    (call : Bytes → Bytes → AccountOverride → CollectError ⊎ Bytes)
    (get_storage_at : Bytes → ℕ → CollectError ⊎ ℕ) (get_balance : Bytes → CollectError ⊎ ℕ)
    (address : Bytes) (stored : ℕ → ℕ) (read : Bytes → Bytes)
    (read_size : (w : Bytes) → length (read w) ≡ 32)
    (runs : (bytes : Bytes)
      → call (call_target storage address) bytes (overrides storage address)
        ≡ inr (concat (map read (chunks 32 bytes))))
    (reads_sentinel : read sentinel_slot ≡ sentinel_value)
    (reads_chain : (n : ℕ)
      → (n == from_be_bytes sentinel_slot) ≡ false
      → read (be_bytes 32 n) ≡ be_bytes 32 (stored n)) where
  -- What one request reads for a slot: the chain's value, but for the slot that the override sets.
  abbrev pub seen : ℕ → Bytes
  seen slot =
      if slot == from_be_bytes sentinel_slot then sentinel_value else be_bytes 32 (stored slot)

  read-seen : (slot : ℕ) → read (be_bytes 32 slot) ≡ seen slot
  read-seen slot = elim (Bool-cases (slot == from_be_bytes sentinel_slot)) [
    | inl same ↦
        ap (λ n. read (be_bytes 32 n)) ((==_iff slot (from_be_bytes sentinel_slot)).0 same)
        ∙ ap read slot_word
        ∙ reads_sentinel
        ∙ sym (when_true sentinel_value (be_bytes 32 (stored slot)) same)
    | inr other ↦
        reads_chain slot other ∙ sym (when_false sentinel_value (be_bytes 32 (stored slot)) other)
  ]

  map-seen : (slots : List ℕ) → map (λ slot. read (be_bytes 32 slot)) slots ≡ map seen slots
  map-seen [] = refl
  map-seen (slot ∷ slots) = rw (read-seen slot) (ap (◌∷◌ (seen slot)) (map-seen slots))

  -- If the node runs the injected extractor, and the overridden slot reads its value there, then one request
  -- for fewer than 2^58 slots of an address that is not refused returns the chain's value for each
  -- slot, except for the sentinel's slot: there it returns the sentinel's value, whatever the chain has.
  pub get_storage_at_many-seen :
      (slots : List ℕ)
      → length slots < 2 ^ 58
      → refuses_target storage address ≡ none
      → get_storage_at_many show_word show_address call get_storage_at get_balance address slots
        ≡ ok (map seen slots)
  unfolding get_storage_at_many request
  get_storage_at_many-seen slots small allowed =
      let more = if uses_sentinel storage then from_be_bytes sentinel_slot ∷ [] else [] in
      let answer : List ℕ → Bytes = λ ws. concat (map read (chunks 32 (calldata (ws ++ more)))) in
      let proves =
        answer-Proves {R = Bytes} show_word storage (λ n. inr n) (λ n value. inr value) call address
          (λ n. n) (λ n. refl) read read read_size runs (λ h. reads_sentinel) (λ n h. refl) slots in
      at_none _ _ allowed
      ∙ after_ok _ (ap returned (runs (calldata (slots ++ more)))) (
          decode_response-Proves show_word storage (answer slots) (length slots) _ small (
            subst
              (λ ws.
                Proves show_word storage (length slots) (answer ws)
                  (map (λ n. read (be_bytes 32 n)) slots))
              (map_same slots) proves))
      ∙ ap ok (map-seen slots)

  module _ (gets : (slot : ℕ) → get_storage_at address slot ≡ inr (stored slot)) where
    abbrev single : ℕ → CollectError ⊎ Bytes
    single slot = and_then (get_storage_at address slot) (λ word. inr (be_bytes 32 word))

    abbrev value_at : ℕ → Bytes
    value_at slot = be_bytes 32 (stored slot)

    abbrev pub Clear : ℕ → Type 0
    Clear slot = (slot == from_be_bytes sentinel_slot) ≡ false

    abbrev Fits : List ℕ → Type 0
    Fits chunk = (length chunk ≤ 1000) × All Clear chunk

    single-value_at : (slot : ℕ) → returned (single slot) ≡ ok (value_at slot)
    single-value_at slot = rw (gets slot) refl

    seen-value_at : (slots : List ℕ) → All Clear slots → map seen slots ≡ map value_at slots
    seen-value_at [] clear = refl
    seen-value_at (slot ∷ slots) (here, clear) =
        ap (λ v. v ∷ map seen slots) (when_false sentinel_value (value_at slot) here)
        ∙ ap (◌∷◌ (value_at slot)) (seen-value_at slots clear)

    many-agrees :
        (chunk : List ℕ) (values : List Bytes)
        → Fits chunk
        → get_storage_at_many show_word show_address call get_storage_at get_balance address chunk
          ≡ ok values
        → each single chunk ≡ ok values
    unfolding get_storage_at_many
    many-agrees chunk values (small, clear) h =
        elim (Option-cases (refuses_target storage address)) [
          | inr (why, refused) ↦ absurd (err_is_not_ok (sym (at_some _ _ refused) ∙ h))
          | inl allowed ↦
              try_map-ok (λ slot. returned (single slot)) value_at single-value_at chunk
              ∙ ap ok (sym (seen-value_at chunk clear))
              ∙ sym (get_storage_at_many-seen chunk (omega (arith, small)) allowed)
              ∙ h
        ]

    Fits-chunks :
        (chunks : List (List ℕ))
        → All (λ chunk. (0 < length chunk) × (length chunk ≤ 1000)) chunks
        → All Clear (concat chunks)
        → All Fits chunks
    Fits-chunks [] sizes clear = tt
    Fits-chunks (chunk ∷ chunks) ((pos, small), sizes) clear =
        let (here, rest) = All-split Clear chunk (concat chunks) clear in
        ((small, here), Fits-chunks chunks sizes rest)

    -- If the node runs the injected extractor, and answers each single read, then
    -- `read_storage_slots` returns the chain's value for each slot, in the order of the slots,
    -- whatever the run knows of the endpoint and whether or not the address is refused, where no slot is
    -- the sentinel's.
    pub read_storage_slots-value_at :
        (slots : List ℕ) (support : OverrideSupport)
        → All Clear slots
        → (after : OverrideSupport) × (read_storage_slots show_word show_address call get_storage_at
              get_balance address slots support
            ≡ ok (after, map value_at slots))
    unfolding read_storage_slots
    read_storage_slots-value_at slots support clear =
        let whole = chunks-concat 1000 slots (omega arith) in
        elim (read_loop-ReadsEach
          (get_storage_at_many show_word show_address call get_storage_at get_balance address)
          single Fits
          (λ chunk (small, c).
            get_storage_at_many-Settles show_word show_address call get_storage_at get_balance
              address chunk small)
          many-agrees (chunks 1000 slots) support
          (Fits-chunks (chunks 1000 slots) (chunks-sizes 1000 slots (omega arith))
            (subst (All Clear) (sym whole) clear))) [
              | inl (after, values, e, reads) ↦
                  let all_read =
                    try_map-ok (λ slot. returned (single slot)) value_at single-value_at
                      (concat (chunks 1000 slots)) in
                  (
                    after,
                    e
                        ∙ ap (λ vs. ok (after, vs)) (ok_inj (sym reads ∙ all_read))
                        ∙ ap (λ xs. ok (after, map value_at xs)) whole,
                  )
              | inr (failure, slot, e, here, fails) ↦
                  absurd (err_is_not_ok (sym (ap returned fails) ∙ single-value_at slot))
            ]
