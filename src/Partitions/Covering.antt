-- ===== src/Partitions/Covering.antt =====
-- Partitioning loses no request and adds none.
use mathlib.Core.Path.{subst}
use triodion.Prelude.{ℕ, Option, ◌≡◌, ◌≢◌, ◌↔◌, refl, sym, none, List, [], ◌∷◌, In, inl, inr}
use triodion.Prelude.Outcome.{ok}
use triodion.Partitions.Dim.{Dim}
use triodion.Partitions.Types.{Partition, Params}
use triodion.Partitions.Splitting.{partition_loop, partition}
use triodion.Partitions.Requests.{param_sets}
use triodion.Partitions.Meaning.{values_at, Asks}
use triodion.Partitions.Served.{Sized, ServedBy, Serves, param_sets-ServedBy, Serves-Asks}
use triodion.Partitions.Pieces.{OneAsks, sole, step-Splits}

partition_loop-OneAsks :
    (ds : List Dim) (outputs : List Partition)
    → ((d : Dim) → In d ds → (p : Partition) → In p outputs → values_at p d ≢ none)
    → (ps : List Partition) × (partition_loop ds outputs ≡ ok ps)
      × ((q : Params) → OneAsks outputs q ↔ OneAsks ps q)
      × ((size : Option ℕ)
          → ((p : Partition) → In p outputs → Sized size p)
          → (p : Partition) → In p ps
          → Sized size p)
unfolding partition_loop
partition_loop-OneAsks [] outputs there = (outputs, refl, λ q. (λ t. t, λ t. t), λ size h. h)
partition_loop-OneAsks (d ∷ ds) outputs there =
    let first = step-Splits d outputs (there d (inl refl)) in
    let (ps, found, same, sized) =
      partition_loop-OneAsks ds first.results (λ e m. first.kept e (there e (inr m))) in
    (
      ps,
      rw first.found found,
      λ q. (λ t. (same q).0 ((first.same q).0 t), λ t. (first.same q).1 ((same q).1 t)),
      λ size h. sized size (first.sized size h),
    )

-- A partition that has chunks in each of the dimensions `ds` splits along them into partitions that,
-- together, ask for exactly its requests, and whose blocks fit an inner request size if its own do.
pub partition-Asks :
    (p : Partition) (ds : List Dim)
    → ((d : Dim) → In d ds → values_at p d ≢ none)
    → (ps : List Partition) × (partition p ds ≡ ok ps)
      × ((q : Params) → Asks p q ↔ OneAsks ps q)
      × ((size : Option ℕ) → Sized size p → (piece : Partition) → In piece ps → Sized size piece)
unfolding partition
partition-Asks p ds there =
    let (ps, found, same, sized) = partition_loop-OneAsks ds (p ∷ []) (λ d m x k. elim k [
      | inl e ↦ subst (λ x. values_at x d ≢ none) (sym e) (there d m)
      | inr z ↦ elim z [ ]
    ]) in
    (
      ps,
      found,
      λ q. (λ a. (same q).0 (p, inl refl, a), λ t. sole p q ((same q).1 t)),
      λ size h.
          sized size (λ x k. elim k [ inl e ↦ subst (Sized size) (sym e) h | inr z ↦ elim z [ ] ]),
    )

-- Partitioning along dimensions that the partition has loses nothing that is asked of the node and
-- adds nothing. The calls of `param_sets`, for the whole and for each piece, are made, and a request
-- is served by the calls of the whole exactly if it is served by those of one of the pieces. Without
-- an inner request size the requests are the calls themselves. With one, as for logs, the calls have
-- ranges of blocks, which the whole and its pieces cut in different places, and the requests are the
-- single blocks of the ranges; the size is then positive, the partition has blocks, and the ends of
-- their ranges are in order and stay within `u64` when the size is added.
pub partition-param_sets :
    (p : Partition) (ds : List Dim) (size : Option ℕ)
    → ((d : Dim) → In d ds → values_at p d ≢ none)
    → Sized size p
    → (calls : List Params) × (param_sets p size ≡ ok calls)
      × (ps : List Partition) × (partition p ds ≡ ok ps)
      × ((piece : Partition) → In piece ps → (own : List Params) × (param_sets piece size ≡ ok own))
      × ((q : Params)
          → ServedBy size calls q ↔ ((piece : Partition) × In piece ps × Serves size piece q))
partition-param_sets p ds size there h =
    let (calls, found, asks) = param_sets-ServedBy size p h in
    let (ps, split, covers, sized) = partition-Asks p ds there in
    (
      calls,
      found,
      ps,
      split,
      λ piece m.
          let (own, returned, _) = param_sets-ServedBy size piece (sized size h piece m) in
          (own, returned),
      λ q. (
        λ t.
            let (piece, m, a) = (covers q).0 ((asks q).1 t) in
            (piece, m, (Serves-Asks size piece q (sized size h piece m)).1 a),
        λ (piece, m, t).
            (asks q).0
              ((covers q).1 (piece, m, (Serves-Asks size piece q (sized size h piece m)).0 t)),
      ),
    )
