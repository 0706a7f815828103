-- ===== src/Batch/MulticallRows.antt =====
-- What a batch of calls of crates/freeze/src/types/multicall.rs reads for each of its rows.
use triodion.Prelude.{
  ℕ, ◌+◌, ◌-◌, ◌≡◌, sym, ap, ◌∙◌, String, Bool, List, [], ◌∷◌, ◌++◌, map, length, take, drop, ◌⊎◌,
  inr, ◌==◌, length-map, take-append_length, drop-append_length, drop-add, All2, arith,
}
use mathlib.Core.List.{map-append}
use mathlib.Core.Path.{subst}
use triodion.Prelude.Outcome.{and_then-inr, inr_inj, map_inl-inr, checked-inr}
use triodion.Errors.{RpcError}
use triodion.Batch.Send.{slice}
use triodion.Batch.Multicall.{MulticallBatchable, sum, flat_calls, decode_rows, multicall_batch}

take-answers :
    {C V : Type 0} (answer : C → V) (cs rest : List C)
    → take (length cs) (map answer (cs ++ rest)) ≡ map answer cs
take-answers answer cs rest =
    rw (map-append answer cs rest, sym (length-map answer cs))
      (take-append_length (map answer cs) (map answer rest))

drop-answers :
    {C V : Type 0} (answer : C → V) (cs rest : List C)
    → drop (length cs) (map answer (cs ++ rest)) ≡ map answer rest
drop-answers answer cs rest =
    rw (map-append answer cs rest, sym (length-map answer cs))
      (drop-append_length (map answer cs) (map answer rest))

slice_of :
    {V : Type 0} (decoded : List V) (idx n : ℕ)
    → slice decoded idx (idx + n) ≡ take n (drop idx decoded)
slice_of decoded idx n =
    let e : idx + n - idx ≡ n = omega arith in ap (λ k. take k (drop idx decoded)) e

module _ {P C V R : Type 0} (d : MulticallBatchable P C V R) (require_success : Bool)
    (answer : C → V) where
  -- The row is decoded from the answers to its own calls.
  abbrev pub FromOwnCalls : P → R → Type 0
  FromOwnCalls p r =
      (cs : List C) × (d.calls_for_row p require_success ≡ inr cs)
      × (d.decode_row p (map answer cs) ≡ inr r)

  flat_calls-cons :
      (p : P) (ps : List P) (calls : List C) (counts : List ℕ)
      → flat_calls d require_success (p ∷ ps) ≡ inr (calls, counts)
      → (cs : List C) × (rest : List C) × (ns : List ℕ) × (d.calls_for_row p require_success
          ≡ inr cs)
        × (flat_calls d require_success ps ≡ inr (rest, ns))
        × (calls ≡ cs ++ rest)
        × (counts ≡ length cs ∷ ns)
  unfolding flat_calls
  flat_calls-cons p ps calls counts h =
      let (cs, k, rows) = and_then-inr (d.calls_for_row p require_success) _ (calls, counts) h in
      let ((rest, ns), l, e) =
        and_then-inr (flat_calls d require_success ps) _ (calls, counts) rows in
      let joined : (calls, counts) ≡ (cs ++ rest, length cs ∷ ns) = sym (inr_inj e) in
      (cs, rest, ns, k, l, ap (λ x. x.0) joined, ap (λ x. x.1) joined)

  decode_rows-cons :
      (p : P) (ps : List P) (n idx : ℕ) (ns : List ℕ) (decoded : List V) (rs : List R)
      → decode_rows d (p ∷ ps) (n ∷ ns) decoded idx ≡ inr rs
      → (r : R) × (rest : List R) × (d.decode_row p (slice decoded idx (idx + n)) ≡ inr r)
        × (decode_rows d ps ns decoded (idx + n) ≡ inr rest)
        × (rs ≡ r ∷ rest)
  unfolding decode_rows
  decode_rows-cons p ps n idx ns decoded rs h =
      let (r, k, rows) = and_then-inr (d.decode_row p (slice decoded idx (idx + n))) _ rs h in
      let (rest, l, e) = and_then-inr (decode_rows d ps ns decoded (idx + n)) _ rs rows in
      (r, rest, k, l, sym (inr_inj e))

  decode_rows-FromOwnCalls :
      (ps : List P) (calls : List C) (counts : List ℕ) (decoded : List V) (idx : ℕ) (rs : List R)
      → flat_calls d require_success ps ≡ inr (calls, counts)
      → drop idx decoded ≡ map answer calls
      → decode_rows d ps counts decoded idx ≡ inr rs
      → All2 FromOwnCalls ps rs
  unfolding flat_calls decode_rows
  decode_rows-FromOwnCalls [] calls counts decoded idx [] h k l = tt
  decode_rows-FromOwnCalls [] calls counts decoded idx (r ∷ rs) h k l = cc
  decode_rows-FromOwnCalls (p ∷ ps) calls counts decoded idx rs h k l =
      let (cs, rest, ns, own, h', calls_eq, counts_eq) = flat_calls-cons p ps calls counts h in
      let (r, rs', row, l', rs_eq) =
        decode_rows-cons p ps (length cs) idx ns decoded rs
          (subst (λ ms. decode_rows d (p ∷ ps) ms decoded idx ≡ inr rs) counts_eq l) in
      let here : drop idx decoded ≡ map answer (cs ++ rest) = k ∙ ap (map answer) calls_eq in
      let after : drop (idx + length cs) decoded ≡ map answer rest =
        drop-add idx (length cs) decoded
        ∙ ap (drop (length cs)) here
        ∙ drop-answers answer cs rest in
      let mine : slice decoded idx (idx + length cs) ≡ map answer cs =
        slice_of decoded idx (length cs)
        ∙ ap (take (length cs)) here
        ∙ take-answers answer cs rest in
      rw (rs_eq) (
        (cs, own, subst (λ vs. d.decode_row p vs ≡ inr r) mine row),
        decode_rows-FromOwnCalls ps rest ns decoded (idx + length cs) rs' h' after l',
      )

module _ {P C V R Bytes : Type 0} (d : MulticallBatchable P C V R) (encode : List C → Bytes)
    (decode_returns : Bytes → String ⊎ List V) (call2 : ℕ → Bytes → RpcError ⊎ Bytes)
    (require_success : Bool) (answer : C → V)
    (in_order : (n : ℕ) (cs : List C) (raw : Bytes) (vs : List V)
      → call2 n (encode cs) ≡ inr raw
      → decode_returns raw ≡ inr vs
      → vs ≡ map answer cs) where
  -- If `aggregate3`, when it answers, answers each call in order, a batch that succeeds reads each row
  -- from the answers to the row's own calls.
  pub multicall_batch-FromOwnCalls :
      (n : ℕ) (batch : List P) (rs : List R)
      → multicall_batch d encode decode_returns call2 require_success n batch ≡ inr rs
      → All2 (FromOwnCalls d require_success answer) batch rs
  unfolding multicall_batch
  multicall_batch-FromOwnCalls n batch rs h =
      let ((calls, counts), k, sent) = and_then-inr (flat_calls d require_success batch) _ rs h in
      let (raw, l, answered) = and_then-inr _ _ rs sent in
      let (decoded, m, checked) = and_then-inr _ _ rs answered in
      decode_rows-FromOwnCalls d require_success answer batch calls counts decoded 0 rs k
        (in_order n calls raw decoded (map_inl-inr _ (call2 n (encode calls)) raw l)
          (map_inl-inr _ (decode_returns raw) decoded m))
        (checked-inr (length decoded == sum counts) _ _ rs checked)
