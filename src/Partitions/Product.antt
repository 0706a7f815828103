-- ===== src/Partitions/Product.antt =====
-- `param_sets` without block ranges asks for exactly the requests of the specification.
use mathlib.Core.Path.{subst}
use triodion.Prelude.{
  ℕ, suc, arith, ◌≡◌, ◌≢◌, ◌↔◌, refl, ap, sym, ◌∙◌, Option, none, some, List, [], ◌∷◌, map, In,
  In-flat_map, flat_map-In, In-map, map-In, inl, inr, false, Option-cases,
}
use triodion.Prelude.Outcome.{ok}
use triodion.Partitions.Dim.{Dim, block_number}
use triodion.Partitions.Types.{Partition, Params, no_params}
use triodion.Partitions.Requests.{param_loop, param_sets, includes_block_ranges, split_blocks}
use triodion.Partitions.Meaning.{
  Value, values_at, value_at, Chosen, Asks, put_at, value_at-put_at_ne, value_at-put_at-none,
  put_at-put_at, block_range-put_at, put_at-value_at, values_at-Suits, Params_ext, Dim-discrete,
}
use triodion.Partitions.Rounds.{with_values, param_step_lem}
use triodion.Partitions.Order.{
  dim_order, rank, Ascending, Ascending-le, dim_order-In, keep, dims-keep,
}

-- What is known of a request when `ds` are still to come: it has no value in those dimensions, and
-- a value of the partition in the others.
record Stage (p : Partition) (ds : List Dim) (q : Params) : Type 0 where
  pending : (e : Dim) → In e ds → value_at q e ≡ none
  settled : (e : Dim) → ¬ In e ds → Chosen (values_at p e) (value_at q e)
  no_range : q.block_range ≡ none

Chosen-none : {x : Option Value} {vs : Option (List Value)} → vs ≡ none → Chosen vs x → x ≡ none
Chosen-none {x = none} e h = refl
Chosen-none {x = some v} e h = elim (rw e at h) [ ]

pub Chosen-some :
    {x : Option Value} {o : Option (List Value)} {vs : List Value}
    → o ≡ some vs
    → Chosen o x
    → (v : Value) × (x ≡ some v) × In v vs
Chosen-some {x = none} e h = elim (rw e at h) [ ]
Chosen-some {x = some v} e h = (v, refl, rw e at h)

module _ (p : Partition) (d : Dim) (ds : List Dim) (fresh : ¬ In d ds) where
  -- a dimension still to come is not `d`
  other_dim : (e : Dim) → In e ds → d ≢ e
  other_dim e m z = fresh (subst (λ x. In x ds) (sym z) m)

  not_pending : (e : Dim) → ¬ (e ≡ d) → ¬ In e ds → ¬ In e (d ∷ ds)
  not_pending e ne n (inl z) = ne z
  not_pending e ne n (inr m) = n m

  Stage-absent : (q : Params) → values_at p d ≡ none → Stage p (d ∷ ds) q ↔ Stage p ds q
  Stage-absent q absent = (
    λ s. record {
      pending = λ e m. s.pending e (inr m);
      settled = λ e n. elim (Dim-discrete e d) [
        | yes same ↦ rw (same, absent, s.pending d (inl refl)) tt
        | no other ↦ s.settled e (not_pending e other n)
      ];
      no_range = s.no_range;
    },
    λ s. record {
      pending = λ e m. elim m [
        | inl same ↦ rw same (Chosen-none absent (s.settled d fresh))
        | inr later ↦ s.pending e later
      ];
      settled = λ e n. s.settled e (λ m. n (inr m));
      no_range = s.no_range;
    },
  )

  module _ (vs : List Value) (present : values_at p d ≡ some vs) where
    Stage-forth :
        (q0 : Params) (v : Value)
        → Stage p (d ∷ ds) q0
        → In v vs
        → Stage p ds (put_at d (some v) q0)
    Stage-forth q0 v s m = record {
      pending = λ e k. value_at-put_at_ne d e (some v) q0 (other_dim e k) ∙ s.pending e (inr k);
      settled = λ e n. elim (Dim-discrete e d) [
        | yes same ↦ rw (same, present, values_at-Suits p d v present m q0) m
        | no other ↦
            rw (value_at-put_at_ne d e (some v) q0 (λ z. other (sym z)))
              (s.settled e (not_pending e other n))
      ];
      no_range = block_range-put_at d (some v) q0 ∙ s.no_range;
    }

    Stage-clear : (q : Params) → Stage p ds q → Stage p (d ∷ ds) (put_at d none q)
    Stage-clear q s = record {
      pending = λ e m. elim m [
        | inl same ↦ rw same (value_at-put_at-none d q)
        | inr later ↦ value_at-put_at_ne d e none q (other_dim e later) ∙ s.pending e later
      ];
      settled = λ e n.
          rw (value_at-put_at_ne d e none q (λ z. n (inl (sym z)))) (s.settled e (λ m. n (inr m)));
      no_range = block_range-put_at d none q ∙ s.no_range;
    }

    Stage-back :
        (q : Params)
        → Stage p ds q
        → (v : Value) × Stage p (d ∷ ds) (put_at d none q)
          × In v vs
          × (q ≡ put_at d (some v) (put_at d none q))
    Stage-back q s =
        let (v, is_v, m) = Chosen-some present (s.settled d fresh) in
        (
          v,
          Stage-clear q s,
          m,
          sym (put_at-value_at d q)
              ∙ ap (λ x. put_at d x q) is_v
              ∙ sym (put_at-put_at d (some v) none q),
        )

    -- One round takes the requests of one stage to those of the next.
    with_values-Stage :
        (outputs : List Params)
        → ((q : Params) → In q outputs ↔ Stage p (d ∷ ds) q)
        → (q : Params) → In q (with_values d vs outputs) ↔ Stage p ds q
    with_values-Stage outputs h q = (
      λ m.
          let (q0, k, inner) = flat_map-In (λ q. map (λ v. put_at d (some v) q) vs) q outputs m in
          let (v, is_in, e) = map-In (λ v. put_at d (some v) q0) q vs inner in
          subst (Stage p ds) (sym e) (Stage-forth q0 v ((h q0).0 k) is_in),
      λ s.
          let (v, before, m, e) = Stage-back q s in
          In-flat_map (λ q. map (λ v. put_at d (some v) q) vs) q (put_at d none q) outputs
            ((h (put_at d none q)).1 before)
            (subst (λ x. In x (map (λ v. put_at d (some v) (put_at d none q)) vs)) (sym e)
              (In-map (λ v. put_at d (some v) (put_at d none q)) v vs m)),
    )

param_loop-Stage :
    (p : Partition) (k : ℕ) (ds : List Dim) (outputs : List Params)
    → Ascending k ds
    → ((q : Params) → In q outputs ↔ Stage p ds q)
    → (qs : List Params) × (param_loop p false (keep p ds) outputs ≡ ok qs)
      × ((q : Params) → In q qs ↔ Stage p [] q)
unfolding param_loop keep
param_loop-Stage p k [] outputs asc h = (outputs, refl, h)
param_loop-Stage p k (d ∷ ds) outputs asc h =
    let fresh : ¬ In d ds = λ m. absurd (omega (arith, Ascending-le (suc (rank d)) ds d asc.1 m)) in
    elim (Option-cases (values_at p d)) [
      | inl absent ↦
          let (qs, found, same) = param_loop-Stage p (suc (rank d)) ds outputs asc.1 (λ q. (
            λ m. (Stage-absent p d ds fresh q absent).0 ((h q).0 m),
            λ s. (h q).1 ((Stage-absent p d ds fresh q absent).1 s),
          )) in
          (qs, rw absent found, same)
      | inr (vs, present) ↦
          let (qs, found, same) =
            param_loop-Stage p (suc (rank d)) ds (with_values d vs outputs) asc.1
              (with_values-Stage p d ds fresh vs present outputs h) in
          (qs, rw (present, param_step_lem p d vs outputs present) found, same)
    ]

value_at-no_params : (d : Dim) → value_at no_params d ≡ none
unfolding value_at
value_at-no_params block_number = refl
value_at-no_params _ = refl

Stage-no_params : (p : Partition) → Stage p dim_order no_params
Stage-no_params p = record {
  pending = λ d m. value_at-no_params d;
  settled = λ d n. absurd (n (dim_order-In d));
  no_range = refl;
}

Stage-Asks : (p : Partition) (q : Params) → Stage p [] q ↔ Asks p q
Stage-Asks p q = (
  λ s. record { at_dim = λ d. s.settled d (λ m. elim m [ ]); no_range = s.no_range },
  λ a. record { pending = λ d m. elim m [ ]; settled = λ d n. a.at_dim d; no_range = a.no_range },
)

start-Stage : (p : Partition) (q : Params) → In q (no_params ∷ []) ↔ Stage p dim_order q
start-Stage p q = (
  λ m. elim m [
    | inl e ↦ subst (Stage p dim_order) (sym e) (Stage-no_params p)
    | inr k ↦ elim k [ ]
  ],
  λ s. inl (
      Params_ext q no_params (λ d. s.pending d (dim_order-In d) ∙ sym (value_at-no_params d))
        s.no_range),
)

-- Without an inner request size, `param_sets` returns a list that holds a request exactly if the
-- request has, in each dimension of the partition, one of the values there, and nothing else.
pub param_sets-Asks :
    (p : Partition)
    → (qs : List Params) × (param_sets p none ≡ ok qs) × ((q : Params) → In q qs ↔ Asks p q)
unfolding param_sets includes_block_ranges split_blocks
param_sets-Asks p =
    let (qs, found, same) =
      param_loop-Stage p 0 dim_order (no_params ∷ []) (omega arith) (start-Stage p) in
    (
      qs,
      rw (dims-keep p, found),
      λ q. (λ m. (Stage-Asks p q).0 ((same q).0 m), λ a. (same q).1 ((Stage-Asks p q).1 a)),
    )
