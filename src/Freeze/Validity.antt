-- ===== src/Freeze/Validity.antt =====
-- What `Query::is_valid` of crates/freeze/src/types/queries.rs accepts.
use mathlib.Core.Path.{subst}
use triodion.Prelude.{
  true, List, [], ◌∷◌, ◌≡◌, refl, sym, ◌∙◌, ◌↔◌, inl, inr, In, All, Bool-cases, when_true,
  when_false, arith,
}
use triodion.Prelude.Outcome.{ok, ok_inj, err_is_not_ok}
use triodion.Prelude.Text.{str_eq, eq_iff, eq_refl}
use triodion.Partitions.Dim.{Dim, fmt, from_str-fmt}
use triodion.Partitions.Types.{Partition}
use triodion.Partitions.Requests.{dims}
use triodion.Freeze.Files.{Query, Names}
use triodion.Freeze.Payloads.{is_nil}
use triodion.Freeze.Main.{
  has_dim, missing_dims, is_valid_loop, is_valid, distinct_dims, all_required,
}

fmt_inj : (d e : Dim) → fmt d ≡ fmt e → d ≡ e
fmt_inj d e h = ok_inj (sym ((from_str-fmt (fmt d) d).1 refl) ∙ (from_str-fmt (fmt d) e).1 h)

has_dim→In : (ds : List Dim) (d : Dim) → has_dim ds d ≡ true → In d ds
unfolding has_dim
has_dim→In [] d h = absurd cc
has_dim→In (e ∷ ds) d h = elim (Bool-cases (str_eq (fmt e) (fmt d))) [
  | inl same ↦ inl (fmt_inj d e (sym ((eq_iff (fmt e) (fmt d)).0 same)))
  | inr other ↦ inr (has_dim→In ds d (ground (arith, h, other)))
]

In→has_dim : (ds : List Dim) (d : Dim) → In d ds → has_dim ds d ≡ true
unfolding has_dim
In→has_dim [] d h = elim h [ ]
In→has_dim (e ∷ ds) d (inl same) = rw (same) (ground (arith, eq_refl (fmt e)))
In→has_dim (e ∷ ds) d (inr h) = ground (arith, In→has_dim ds d h)

missing_dims-nil :
    (present ds : List Dim) → is_nil (missing_dims present ds) ≡ true → All (λ d. In d present) ds
unfolding missing_dims
missing_dims-nil present [] h = tt
missing_dims-nil present (d ∷ ds) h = elim (Bool-cases (has_dim present d)) [
  | inl here ↦ (has_dim→In present d here, missing_dims-nil present ds (ground (arith, h, here)))
  | inr absent ↦ absurd (ground (arith, h, absent))
]

nil-missing_dims :
    (present ds : List Dim) → All (λ d. In d present) ds → is_nil (missing_dims present ds) ≡ true
unfolding missing_dims
nil-missing_dims present [] h = refl
nil-missing_dims present (d ∷ ds) (here, h) =
    ground (arith, In→has_dim present d here, nil-missing_dims present ds h)

-- Each partition has each of the dimensions.
abbrev pub Supplied : List Dim → List Partition → Type 0
Supplied required partitions = All (λ p. All (λ d. In d (dims p)) required) partitions

is_valid_loop-Supplied :
    (required : List Dim) (ps : List Partition)
    → is_valid_loop required ps ≡ ok tt
    → Supplied required ps
unfolding is_valid_loop
is_valid_loop-Supplied required [] h = tt
is_valid_loop-Supplied required (p ∷ ps) h =
    elim (Bool-cases (is_nil (missing_dims (dims p) required))) [
      | inl full ↦ (
        missing_dims-nil (dims p) required full,
        is_valid_loop-Supplied required ps (sym (when_true _ _ full) ∙ h),
      )
      | inr lacks ↦ absurd (err_is_not_ok (sym (when_false _ _ lacks) ∙ h))
    ]

Supplied-is_valid_loop :
    (required : List Dim) (ps : List Partition)
    → Supplied required ps
    → is_valid_loop required ps ≡ ok tt
unfolding is_valid_loop
Supplied-is_valid_loop required [] h = refl
Supplied-is_valid_loop required (p ∷ ps) (here, h) =
    when_true _ _ (nil-missing_dims (dims p) required here) ∙ Supplied-is_valid_loop required ps h

All-In : {A : Type 0} (P : A → Type 0) (xs : List A) (a : A) → All P xs → In a xs → P a
All-In P [] a every here = elim here [ ]
All-In P (x ∷ xs) a (p, every) (inl e) = subst P (sym e) p
All-In P (x ∷ xs) a (p, every) (inr here) = All-In P xs a every here

distinct_dims-All : (P : Dim → Type 0) (ds : List Dim) → All P (distinct_dims ds) ↔ All P ds
unfolding distinct_dims
distinct_dims-All P [] = (λ h. h, λ h. h)
distinct_dims-All P (d ∷ ds) =
    let (down, up) = distinct_dims-All P ds in
    elim (Bool-cases (has_dim (distinct_dims ds) d)) [
      | inl here ↦
          let e = when_true (distinct_dims ds) (d ∷ distinct_dims ds) here in
          (
            λ h.
                let every = subst (All P) e h in
                (
                  All-In P (distinct_dims ds) d every (has_dim→In (distinct_dims ds) d here),
                  down every,
                ),
            λ h. subst (All P) (sym e) (up h.1),
          )
      | inr fresh ↦
          let e = when_false (distinct_dims ds) (d ∷ distinct_dims ds) fresh in
          (
            λ h. let (p, every) = subst (All P) e h in (p, down every),
            λ h. subst (All P) (sym e) (h.0, up h.1),
          )
    ]

Supplied-distinct :
    (ds : List Dim) (ps : List Partition) → Supplied (distinct_dims ds) ps ↔ Supplied ds ps
Supplied-distinct ds [] = (λ h. h, λ h. h)
Supplied-distinct ds (p ∷ ps) =
    let (down, up) = distinct_dims-All (λ d. In d (dims p)) ds in
    let (down_rest, up_rest) = Supplied-distinct ds ps in
    (λ h. (down h.0, down_rest h.1), λ h. (up h.0, up_rest h.1))

-- A query is accepted exactly when each of its partitions has each dimension that one of its datatypes
-- requires.
pub is_valid-Supplied :
    {D M : Type 0} (names : Names D M) (required_parameters : D → List Dim) (query : Query D M)
    → (is_valid names required_parameters query ≡ ok tt)
      ↔ Supplied (all_required names required_parameters query) query.partitions
unfolding is_valid
is_valid-Supplied names required_parameters query =
    let ds = all_required names required_parameters query in
    let ps = query.partitions in
    (
      λ h. (Supplied-distinct ds ps).0 (is_valid_loop-Supplied (distinct_dims ds) ps h),
      λ h. Supplied-is_valid_loop (distinct_dims ds) ps ((Supplied-distinct ds ps).1 h),
    )
