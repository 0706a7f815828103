-- ===== src/Partitions/Served.antt =====
-- The requests of single blocks that the calls of `param_sets` serve, with and without an inner
-- request size.
use mathlib.Core.Path.{subst}
use triodion.Prelude.{
  ℕ, ◌<◌, ◌≡◌, ◌↔◌, refl, sym, ◌∙◌, Option, none, some, List, [], ◌∷◌, In, All, inl, inr,
}
use triodion.Prelude.Outcome.{ok, ok_inj}
use triodion.Chunks.Number.{NumberChunk}
use triodion.Chunks.Splits.{Fits}
use triodion.Partitions.Types.{Partition, Params}
use triodion.Partitions.Splitting.{Axis, or_empty}
use triodion.Partitions.Requests.{param_sets}
use triodion.Partitions.Meaning.{Asks}
use triodion.Partitions.Product.{param_sets-Asks}
use triodion.Partitions.InnerRequests.{Covers, param_sets-Covers}

-- An inner request size is positive, and the partition then has blocks, in ranges that are not inverted
-- and whose numbers plus the size stay within `u64`.
abbrev pub Sized : Option ℕ → Partition → Type 0
Sized none p = Unit
Sized (some size) p =
    (0 < size) × (bs : List NumberChunk) × (p.block_numbers ≡ some bs) × All (λ c. Fits c size) bs

-- Without a size the request is one of the calls, and with a size it is one block of the range of a call.
abbrev pub ServedBy : Option ℕ → List Params → Params → Type 0
ServedBy none calls q = In q calls
ServedBy (some size) calls q = (call : Params) × In call calls × Covers call q

-- The partition has calls, and they serve the request.
abbrev pub Serves : Option ℕ → Partition → Params → Type 0
Serves size p q = (calls : List Params) × (param_sets p size ≡ ok calls) × ServedBy size calls q

pub param_sets-ServedBy :
    (size : Option ℕ) (p : Partition)
    → Sized size p
    → (calls : List Params) × (param_sets p size ≡ ok calls)
      × ((q : Params) → Asks p q ↔ ServedBy size calls q)
param_sets-ServedBy none p h =
    let (calls, found, asks) = param_sets-Asks p in (calls, found, λ q. ((asks q).1, (asks q).0))
param_sets-ServedBy (some size) p (pos, bs, blocks, fits) =
    param_sets-Covers p bs blocks size pos fits

pub Serves-Asks :
    (size : Option ℕ) (p : Partition) (q : Params) → Sized size p → Serves size p q ↔ Asks p q
Serves-Asks size p q h =
    let (calls, found, asks) = param_sets-ServedBy size p h in
    (
      λ (given, returned, served).
          (asks q).1 (subst (λ cs. ServedBy size cs q) (ok_inj (sym returned ∙ found)) served),
      λ a. (calls, found, (asks q).0 a),
    )

All-member : {A : Type 0} (P : A → Type 0) (a : A) (xs : List A) → All P xs → In a xs → P a
All-member P a [] h m = elim m [ ]
All-member P a (x ∷ xs) (p, h) (inl e) = subst P (sym e) p
All-member P a (x ∷ xs) (p, h) (inr m) = All-member P a xs h m

-- one of the chunks of blocks fits when all of them do
pub one_chunk-Sized :
    (p : Partition) (c : NumberChunk) (size : Option ℕ)
    → In c (or_empty p.block_numbers)
    → Sized size p
    → Sized size (record p { block_numbers = some (c ∷ []) })
one_chunk-Sized p c none m h = tt
one_chunk-Sized p c (some size) m (pos, bs, blocks, fits) =
    let inside = subst (λ o. In c (or_empty o)) blocks m in
    (pos, c ∷ [], refl, (All-member (λ c. Fits c size) c bs fits inside, tt))

-- chunks in another dimension leave the blocks as they are
pub keeps-Sized :
    {C : Type 0} (axis : Axis C)
    → ((p : Partition) (c : C) → (axis.with_chunks p (c ∷ [])).block_numbers ≡ p.block_numbers)
    → (p : Partition) (c : C) (size : Option ℕ) → In c (or_empty (axis.chunks p))
    → Sized size p
    → Sized size (axis.with_chunks p (c ∷ []))
keeps-Sized axis keeps p c none m h = tt
keeps-Sized axis keeps p c (some size) m (pos, bs, blocks, fits) =
    (pos, bs, keeps p c ∙ blocks, fits)
