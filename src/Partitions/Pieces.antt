-- ===== src/Partitions/Pieces.antt =====
-- One round of `partition`, along one dimension.
use mathlib.Core.Path.{subst}
use mathlib.Core.Option
use triodion.Prelude.{
  ℕ, Option, ◌≡◌, ◌≢◌, ◌↔◌, refl, sym, ap, ◌∙◌, none, some, List, [], ◌∷◌, map, flat_map, In,
  In-map, map-In, In-flat_map, flat_map-In, inl, inr, Option-cases,
}
use triodion.Prelude.Outcome.{ok}
use triodion.Partitions.Dim.{
  Dim, block_number, transaction_hash, call_data, address, contract, from_address, to_address, slot,
  topic0, topic1, topic2, topic3,
}
use triodion.Partitions.Types.{Partition, Params}
use triodion.Partitions.Splitting.{
  Axis, or_empty, partition_macro, partition_step, block_axis, transaction_hash_axis, address_axis,
  contract_axis, from_address_axis, to_address_axis, call_data_axis, slot_axis, topic0_axis,
  topic1_axis, topic2_axis, topic3_axis,
}
use triodion.Partitions.Meaning.{
  Value, block_values, binary_values, values_at, value_at, Chosen, Asks, Dim-discrete,
}
use triodion.Partitions.Axes.{
  IsAxis, block_number-IsAxis, transaction_hash-IsAxis, address-IsAxis, contract-IsAxis,
  from_address-IsAxis, to_address-IsAxis, call_data-IsAxis, slot-IsAxis, topic0-IsAxis,
  topic1-IsAxis, topic2-IsAxis, topic3-IsAxis,
}
use triodion.Partitions.Product.{Chosen-some}
use triodion.Partitions.Served.{Sized, one_chunk-Sized, keeps-Sized}

-- one of the partitions asks for the request
abbrev pub OneAsks : List Partition → Params → Type 0
OneAsks ps q = (p : Partition) × In p ps × Asks p q

-- What one round of `partition` has to do for `outputs`.
pub record Splits (d : Dim) (outputs : List Partition) : Type 0 where
  pub results : List Partition
  pub found : partition_step d outputs ≡ ok results
  pub same : (q : Params) → OneAsks outputs q ↔ OneAsks results q
  pub kept :
      (e : Dim)
      → ((p : Partition) → In p outputs → values_at p e ≢ none)
      → (p : Partition) → In p results
      → values_at p e ≢ none
  pub sized :
      (size : Option ℕ)
      → ((p : Partition) → In p outputs → Sized size p)
      → (p : Partition) → In p results
      → Sized size p

none-some : {A : Type 0} {a : A} → none ≡ some a → ⊥
none-some e = cc

pub sole : (p : Partition) (q : Params) → OneAsks (p ∷ []) q → Asks p q
sole p q (x, inl e, a) = subst (λ y. Asks y q) e a
sole p q (x, inr m, a) = elim m [ ]

module _ {C : Type 0} (d : Dim) (axis : Axis C) (view : List C → List Value)
    (h : IsAxis d axis view) where
  split_at : Partition → List Partition
  split_at p = map (λ c. axis.with_chunks p (c ∷ [])) (or_empty (axis.chunks p))

  partition_macro_lem :
      (outputs : List Partition) → partition_macro axis outputs ≡ ok (flat_map split_at outputs)
  unfolding partition_macro split_at
  partition_macro_lem [] = refl
  partition_macro_lem (p ∷ outputs) = rw (partition_macro_lem outputs)

  Asks-forth :
      (p : Partition) (q : Params) (cs : List C)
      → axis.chunks p ≡ some cs
      → Asks p q
      → OneAsks (split_at p) q
  unfolding split_at
  Asks-forth p q cs e a =
      let here : values_at p d ≡ some (view cs) = h.at p ∙ ap (Option.map view) e in
      let (v, is_v, m) = Chosen-some here (a.at_dim d) in
      let (c, is_in, inner) = (h.by_chunk v cs).0 m in
      let piece = axis.with_chunks p (c ∷ []) in
      (
        piece,
        rw e (In-map (λ c. axis.with_chunks p (c ∷ [])) c cs is_in),
        record {
          at_dim = λ x. elim (Dim-discrete x d) [
            | yes same ↦ rw (same, h.put p (c ∷ []), is_v) inner
            | no other ↦ rw (h.other p (c ∷ []) x (λ z. other (sym z))) (a.at_dim x)
          ];
          no_range = a.no_range;
        },
      )

  Asks-piece :
      (p : Partition) (q : Params) (c : C)
      → In c (or_empty (axis.chunks p))
      → Asks (axis.with_chunks p (c ∷ [])) q
      → Asks p q
  Asks-piece p q c is_in a = elim (Option-cases (axis.chunks p)) [
    | inl absent ↦ absurd (subst (λ o. In c (or_empty o)) absent is_in)
    | inr (cs, e) ↦
        let (v, is_v, m) = Chosen-some (h.put p (c ∷ [])) (a.at_dim d) in
        let all = (h.by_chunk v cs).1 (c, subst (λ o. In c (or_empty o)) e is_in, m) in
        record {
          at_dim = λ x. elim (Dim-discrete x d) [
            | yes same ↦ rw (same, h.at p, e, is_v) all
            | no other ↦
                subst (λ o. Chosen o (value_at q x)) (h.other p (c ∷ []) x (λ z. other (sym z)))
                  (a.at_dim x)
          ];
          no_range = a.no_range;
        }
  ]

  Asks-back : (p piece : Partition) (q : Params) → In piece (split_at p) → Asks piece q → Asks p q
  unfolding split_at
  Asks-back p piece q m a =
      let (c, is_in, e) =
        map-In (λ c. axis.with_chunks p (c ∷ [])) piece (or_empty (axis.chunks p)) m in
      Asks-piece p q c is_in (subst (λ x. Asks x q) e a)

  chunks_there : (p : Partition) → values_at p d ≢ none → (cs : List C) × (axis.chunks p ≡ some cs)
  chunks_there p there = elim (Option-cases (axis.chunks p)) [
    | inl absent ↦ absurd (there (h.at p ∙ ap (Option.map view) absent))
    | inr found ↦ found
  ]

  piece-there :
      (p piece : Partition) (e : Dim)
      → In piece (split_at p)
      → values_at p e ≢ none
      → values_at piece e ≢ none
  unfolding split_at
  piece-there p piece e m there gone =
      let (c, is_in, same) =
        map-In (λ c. axis.with_chunks p (c ∷ [])) piece (or_empty (axis.chunks p)) m in
      let gone' = subst (λ x. values_at x e ≡ none) same gone in
      elim (Dim-discrete e d) [
        | yes z ↦ none-some (
            sym (subst (λ x. values_at (axis.with_chunks p (c ∷ [])) x ≡ none) z gone')
            ∙ h.put p (c ∷ []))
        | no z ↦ there (sym (h.other p (c ∷ []) e (λ w. z (sym w))) ∙ gone')
      ]

  axis-Splits :
      (outputs : List Partition)
      → partition_step d outputs ≡ partition_macro axis outputs
      → ((p : Partition) → In p outputs → values_at p d ≢ none)
      → ((p : Partition) (c : C) (size : Option ℕ)
          → In c (or_empty (axis.chunks p))
          → Sized size p
          → Sized size (axis.with_chunks p (c ∷ [])))
      → Splits d outputs
  unfolding split_at
  axis-Splits outputs step there fitting = record {
    results = flat_map split_at outputs;
    found = step ∙ partition_macro_lem outputs;
    same = λ q. (
      λ t.
          let (cs, e) = chunks_there t.0 (there t.0 t.1) in
          let (piece, m, a) = Asks-forth t.0 q cs e t.2 in
          (piece, In-flat_map split_at piece t.0 outputs t.1 m, a),
      λ t.
          let (p, m, inner) = flat_map-In split_at t.0 outputs t.1 in
          (p, m, Asks-back p t.0 q inner t.2),
    );
    kept = λ e all piece m.
        let (p, k, inner) = flat_map-In split_at piece outputs m in
        piece-there p piece e inner (all p k);
    sized = λ size all piece m.
        let (p, k, inner) = flat_map-In split_at piece outputs m in
        let (c, is_in, same) =
          map-In (λ c. axis.with_chunks p (c ∷ [])) piece (or_empty (axis.chunks p)) inner in
        subst (Sized size) (sym same) (fitting p c size is_in (all p k));
  }

pub step-Splits :
    (d : Dim) (outputs : List Partition)
    → ((p : Partition) → In p outputs → values_at p d ≢ none)
    → Splits d outputs
unfolding partition_step
step-Splits block_number outputs there =
    axis-Splits block_number block_axis block_values block_number-IsAxis outputs refl there
      one_chunk-Sized
step-Splits transaction_hash outputs there =
    axis-Splits transaction_hash transaction_hash_axis binary_values transaction_hash-IsAxis outputs
      refl there (keeps-Sized transaction_hash_axis (λ p c. refl))
step-Splits address outputs there =
    axis-Splits address address_axis binary_values address-IsAxis outputs refl there
      (keeps-Sized address_axis (λ p c. refl))
step-Splits contract outputs there =
    axis-Splits contract contract_axis binary_values contract-IsAxis outputs refl there
      (keeps-Sized contract_axis (λ p c. refl))
step-Splits from_address outputs there =
    axis-Splits from_address from_address_axis binary_values from_address-IsAxis outputs refl there
      (keeps-Sized from_address_axis (λ p c. refl))
step-Splits to_address outputs there =
    axis-Splits to_address to_address_axis binary_values to_address-IsAxis outputs refl there
      (keeps-Sized to_address_axis (λ p c. refl))
step-Splits call_data outputs there =
    axis-Splits call_data call_data_axis binary_values call_data-IsAxis outputs refl there
      (keeps-Sized call_data_axis (λ p c. refl))
step-Splits slot outputs there =
    axis-Splits slot slot_axis binary_values slot-IsAxis outputs refl there
      (keeps-Sized slot_axis (λ p c. refl))
step-Splits topic0 outputs there =
    axis-Splits topic0 topic0_axis binary_values topic0-IsAxis outputs refl there
      (keeps-Sized topic0_axis (λ p c. refl))
step-Splits topic1 outputs there =
    axis-Splits topic1 topic1_axis binary_values topic1-IsAxis outputs refl there
      (keeps-Sized topic1_axis (λ p c. refl))
step-Splits topic2 outputs there =
    axis-Splits topic2 topic2_axis binary_values topic2-IsAxis outputs refl there
      (keeps-Sized topic2_axis (λ p c. refl))
step-Splits topic3 outputs there =
    axis-Splits topic3 topic3_axis binary_values topic3-IsAxis outputs refl there
      (keeps-Sized topic3_axis (λ p c. refl))
