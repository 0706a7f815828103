-- ===== src/Cli/Distinct.antt =====
-- What `sort_unstable` and `dedup` of crates/cli/src/parse/timestamps.rs do together: the distinct
-- values, in ascending order.
use triodion.Prelude.{
  ℕ, ◌≤◌, ◌<◌, ◌≡◌, sym, ◌∙◌, inl, inr, List, [], ◌∷◌, In, leb, leb→le, ◌==◌, Bool-cases, arith,
}
use triodion.Cli.Timestamps.{insert_sorted, sort_unstable, dedup_after, dedup}

AtLeast : ℕ → List ℕ → Type 0
AtLeast x [] = Unit
AtLeast x (y ∷ ys) = (x ≤ y) × AtLeast y ys

Sorted : List ℕ → Type 0
unfolding AtLeast
Sorted [] = Unit
Sorted (x ∷ xs) = AtLeast x xs

abbrev pub Above : ℕ → List ℕ → Type 0
Above x [] = Unit
Above x (y ∷ ys) = (x < y) × Above y ys

abbrev pub Ascending : List ℕ → Type 0
Ascending [] = Unit
Ascending (x ∷ xs) = Above x xs

insert_sorted-AtLeast :
    (z x : ℕ) (ys : List ℕ) → z ≤ x → AtLeast z ys → AtLeast z (insert_sorted x ys)
unfolding insert_sorted AtLeast
insert_sorted-AtLeast z x [] h k = (h, tt)
insert_sorted-AtLeast z x (y ∷ ys) h k = elim (Bool-cases (leb x y)) [
  | inl low ↦ rw low (h, (leb→le x y low, k.1))
  | inr high ↦ rw high (k.0, insert_sorted-AtLeast y x ys (ground arith) k.1)
]

insert_sorted-Sorted : (x : ℕ) (ys : List ℕ) → Sorted ys → Sorted (insert_sorted x ys)
unfolding insert_sorted AtLeast Sorted
insert_sorted-Sorted x [] h = tt
insert_sorted-Sorted x (y ∷ ys) h = elim (Bool-cases (leb x y)) [
  | inl low ↦ rw low (leb→le x y low, h)
  | inr high ↦ rw high (insert_sorted-AtLeast y x ys (ground arith) h)
]

sort_unstable-Sorted : (xs : List ℕ) → Sorted (sort_unstable xs)
unfolding sort_unstable Sorted
sort_unstable-Sorted [] = tt
sort_unstable-Sorted (x ∷ xs) = insert_sorted-Sorted x (sort_unstable xs) (sort_unstable-Sorted xs)

dedup_after-Above : (x : ℕ) (ys : List ℕ) → AtLeast x ys → Above x (dedup_after x ys)
unfolding dedup_after AtLeast
dedup_after-Above x [] h = tt
dedup_after-Above x (y ∷ ys) h = elim (Bool-cases (x == y)) [
  | inl same ↦ let e : x ≡ y = ground arith in rw same (rw e (dedup_after-Above y ys h.1))
  | inr other ↦ rw other (ground arith, dedup_after-Above y ys h.1)
]

dedup-Ascending : (xs : List ℕ) → Sorted xs → Ascending (dedup xs)
unfolding dedup Sorted
dedup-Ascending [] h = tt
dedup-Ascending (x ∷ xs) h = dedup_after-Above x xs h

-- membership, both ways
insert_sorted-In :
    (b x : ℕ) (ys : List ℕ)
    → (In b (insert_sorted x ys) → In b (x ∷ ys)) × (In b (x ∷ ys) → In b (insert_sorted x ys))
unfolding insert_sorted
insert_sorted-In b x [] = (λ h. h, λ h. h)
insert_sorted-In b x (y ∷ ys) = elim (Bool-cases (leb x y)) [
  | inl low ↦ rw low (λ h. h, λ h. h)
  | inr high ↦
      let (there, back) = insert_sorted-In b x ys in
      rw high (
        λ h. elim h [
          | inl e ↦ inr (inl e)
          | inr k ↦ elim (there k) [ inl e ↦ inl e | inr l ↦ inr (inr l) ]
        ],
        λ h. elim h [
          | inl e ↦ inr (back (inl e))
          | inr (inl e) ↦ inl e
          | inr (inr l) ↦ inr (back (inr l))
        ],
      )
]

sort_unstable-In :
    (b : ℕ) (xs : List ℕ)
    → (In b (sort_unstable xs) → In b xs) × (In b xs → In b (sort_unstable xs))
unfolding sort_unstable
sort_unstable-In b [] = (λ h. h, λ h. h)
sort_unstable-In b (x ∷ xs) =
    let (there, back) = insert_sorted-In b x (sort_unstable xs) in
    let (into, from) = sort_unstable-In b xs in
    (
      λ h. elim (there h) [ inl e ↦ inl e | inr k ↦ inr (into k) ],
      λ h. elim h [ inl e ↦ back (inl e) | inr k ↦ back (inr (from k)) ],
    )

dedup_after-In :
    (b x : ℕ) (ys : List ℕ)
    → (In b (x ∷ dedup_after x ys) → In b (x ∷ ys)) × (In b (x ∷ ys) → In b (x ∷ dedup_after x ys))
unfolding dedup_after
dedup_after-In b x [] = (λ h. h, λ h. h)
dedup_after-In b x (y ∷ ys) =
    let (there, back) = dedup_after-In b y ys in
    elim (Bool-cases (x == y)) [
      | inl same ↦
          let e : x ≡ y = ground arith in
          rw same (
            λ h. elim h [ inl k ↦ inl k | inr k ↦ inr (there (inr k)) ],
            λ h. elim h [
              | inl k ↦ inl k
              | inr k ↦ elim (back k) [ inl l ↦ inl (l ∙ sym e) | inr l ↦ inr l ]
            ],
          )
      | inr other ↦ rw other (
        λ h. elim h [ inl k ↦ inl k | inr k ↦ inr (there k) ],
        λ h. elim h [ inl k ↦ inl k | inr k ↦ inr (back k) ],
      )
    ]

dedup-In : (b : ℕ) (xs : List ℕ) → (In b (dedup xs) → In b xs) × (In b xs → In b (dedup xs))
unfolding dedup
dedup-In b [] = (λ h. h, λ h. h)
dedup-In b (x ∷ xs) = dedup_after-In b x xs

-- The sorted and deduplicated list is strictly ascending and has the same values.
pub dedup-sort_unstable :
    (xs : List ℕ)
    → Ascending (dedup (sort_unstable xs))
      × ((b : ℕ) → In b (dedup (sort_unstable xs)) → In b xs)
      × ((b : ℕ) → In b xs → In b (dedup (sort_unstable xs)))
dedup-sort_unstable xs = (
  dedup-Ascending (sort_unstable xs) (sort_unstable-Sorted xs),
  λ b h. (sort_unstable-In b xs).0 ((dedup-In b (sort_unstable xs)).0 h),
  λ b h. (dedup-In b (sort_unstable xs)).1 ((sort_unstable-In b xs).1 h),
)
