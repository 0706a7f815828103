-- ===== src/Freeze/Routing.antt =====
-- What `get_payloads` of crates/freeze/src/freeze.rs collects and skips.
use mathlib.Core.Path.{subst}
use mathlib.Core.List.{append_assoc, append-nil}
use triodion.Prelude.{
  String, Bool, true, false, not, ◌&&◌, ◌||◌, List, [], ◌∷◌, ◌++◌, map, ◌≡◌, refl, sym, ap,
  when_true, when_false, ◌∙◌, ◌⊎◌, inl, inr, All, Bool-cases, arith,
}
use triodion.Prelude.Order.{Bytes}
use triodion.Prelude.Outcome.{Outcome, ok, bind-ok, ok_inj, err_is_not_ok}
use triodion.Errors.{CollectError}
use triodion.Partitions.Types.{Partition}
use triodion.Freeze.Files.{FileOutput, Query, Names, MetaDatatype, get_paths}
use triodion.Freeze.Payloads.{
  Payload, values, contains, all_exist, intersection, is_nil, pairs, payloads_loop, get_payloads,
}

-- None of the first paths is one of the second.
abbrev pub Apart : List String → List String → Type 0
Apart ps qs = All (λ p. contains qs p ≡ false) ps

-- No path is in two of the lists.
abbrev pub Disjoint : List (List String) → Type 0
Disjoint [] = Unit
Disjoint (ps ∷ rest) = All (λ qs. Apart qs ps) rest × Disjoint rest

intersection-Apart :
    (ps taken : List String) → is_nil (intersection ps taken) ≡ true → Apart ps taken
unfolding intersection
intersection-Apart [] taken h = tt
intersection-Apart (p ∷ ps) taken h = elim (Bool-cases (contains taken p)) [
  | inl found ↦ absurd (ground (arith, h))
  | inr fresh ↦ (fresh, intersection-Apart ps taken (ground (arith, h, fresh)))
]

contains-append :
    (ps qs : List String) (p : String) → contains (ps ++ qs) p ≡ (contains ps p || contains qs p)
unfolding contains
contains-append [] qs p = refl
contains-append (q ∷ ps) qs p = ground (arith, contains-append ps qs p)

Apart-left : (ps qs taken : List String) → Apart ps (taken ++ qs) → Apart ps taken
Apart-left [] qs taken h = tt
Apart-left (p ∷ ps) qs taken (fresh, h) =
    (ground (arith, contains-append taken qs p, fresh), Apart-left ps qs taken h)

Apart-right : (ps qs taken : List String) → Apart ps (taken ++ qs) → Apart ps qs
Apart-right [] qs taken h = tt
Apart-right (p ∷ ps) qs taken (fresh, h) =
    (ground (arith, contains-append taken qs p, fresh), Apart-right ps qs taken h)

abbrev pub paths_of : {D M : Type 0} → Payload D M → List String
paths_of payload = values payload.paths

module _ {D M : Type 0} (names : Names D M) (hex_encode : Bytes → String)
    (creates exists : String → Bool) (sink : FileOutput) (query : Query D M) where
  abbrev paths_for : MetaDatatype D M → Partition → Outcome CollectError (List (D × String))
  paths_for datatype p = get_paths names hex_encode creates sink query p (datatype ∷ [])

  -- Each pair of a datatype and a partition is skipped, because all its files exist and none is to be
  -- overwritten, or it is a payload with the paths of its files.
  abbrev pub Routed :
      List (MetaDatatype D M × Partition) → List (Payload D M) → List Partition → Type 0
  Routed [] payloads skipping = (payloads ≡ []) × (skipping ≡ [])
  Routed ((datatype, p) ∷ rest) payloads skipping =
      (paths : List (D × String)) × (paths_for datatype p ≡ ok paths)
      × ((((not sink.overwrite && all_exist exists (values paths)) ≡ true)
            × (others : List Partition) × (skipping ≡ p ∷ others)
            × Routed rest payloads others)
          ⊎ (((not sink.overwrite && all_exist exists (values paths)) ≡ false)
              × (others : List (Payload D M)) × (payloads
                  ≡ record { partition = p; datatype = datatype; paths = paths } ∷ others)
              × Routed rest others skipping))

  -- The paths of each payload are apart from those taken before it.
  abbrev Separate : List String → List (Payload D M) → Type 0
  Separate taken [] = Unit
  Separate taken (payload ∷ payloads) =
      Apart (paths_of payload) taken × Separate (taken ++ paths_of payload) payloads

  Separate-Apart :
      (taken some_of : List String) (payloads : List (Payload D M))
      → ((qs : List String) → Apart qs taken → Apart qs some_of)
      → Separate taken payloads
      → All (λ qs. Apart qs some_of) (map paths_of payloads)
  Separate-Apart taken some_of [] f h = tt
  Separate-Apart taken some_of (payload ∷ payloads) f (apart, h) = (
    f (paths_of payload) apart,
    Separate-Apart (taken ++ paths_of payload) some_of payloads
        (λ qs k. f qs (Apart-left qs (paths_of payload) taken k)) h,
  )

  Separate-Disjoint :
      (taken : List String) (payloads : List (Payload D M))
      → Separate taken payloads
      → Disjoint (map paths_of payloads)
  Separate-Disjoint taken [] h = tt
  Separate-Disjoint taken (payload ∷ payloads) (apart, h) = (
    Separate-Apart (taken ++ paths_of payload) (paths_of payload) payloads
        (λ qs. Apart-right qs (paths_of payload) taken) h,
    Separate-Disjoint (taken ++ paths_of payload) payloads h,
  )

  -- What the loop adds to what it has.
  Added :
      List (MetaDatatype D M × Partition)
      → List (Payload D M)
      → List Partition
      → List String
      → List (Payload D M)
      → List Partition
      → Type 0
  Added todo payloads skipping taken all skipped =
      (more : List (Payload D M)) × (others : List Partition) × (all ≡ payloads ++ more)
      × (skipped ≡ skipping ++ others)
      × Routed todo more others
      × Separate taken more

  payloads_loop-Added :
      (todo : List (MetaDatatype D M × Partition)) (payloads all : List (Payload D M))
      (skipping skipped : List Partition) (taken : List String)
      → payloads_loop names hex_encode creates exists sink query todo payloads skipping taken
        ≡ ok (all, skipped)
      → Added todo payloads skipping taken all skipped
  unfolding payloads_loop Added
  payloads_loop-Added [] payloads all skipping skipped taken h =
      let e = ok_inj h in
      (
        [],
        [],
        ap (λ x. x.0) (sym e) ∙ sym (append-nil payloads),
        ap (λ x. x.1) (sym e) ∙ sym (append-nil skipping),
        (refl, refl),
        tt,
      )
  payloads_loop-Added ((datatype, p) ∷ todo) payloads all skipping skipped taken h =
      let (paths, found, rest) = bind-ok (paths_for datatype p) _ (all, skipped) h in
      elim (Bool-cases (not sink.overwrite && all_exist exists (values paths))) [
        | inl there ↦
            let (more, others, e, f, routed, separate) =
              payloads_loop-Added todo payloads all (skipping ++ (p ∷ [])) skipped taken
                (sym (when_true _ _ there) ∙ rest) in
            (
              more,
              p ∷ others,
              e,
              f ∙ append_assoc skipping (p ∷ []) others,
              (paths, found, inl (there, others, refl, routed)),
              separate,
            )
        | inr wanted ↦ elim (Bool-cases (is_nil (intersection (values paths) taken))) [
          | inr clash ↦
              absurd
                (err_is_not_ok (sym (when_false _ _ clash) ∙ sym (when_false _ _ wanted) ∙ rest))
          | inl free ↦
              let payload : Payload D M = record {
                partition = p;
                datatype = datatype;
                paths = paths;
              } in
              let (more, others, e, f, routed, separate) =
                payloads_loop-Added todo (payloads ++ (payload ∷ [])) all skipping skipped
                  (taken ++ values paths)
                  (sym (when_true _ _ free) ∙ sym (when_false _ _ wanted) ∙ rest) in
              (
                payload ∷ more,
                others,
                e ∙ append_assoc payloads (payload ∷ []) more,
                f,
                (paths, found, inr (wanted, more, refl, routed)),
                (intersection-Apart (values paths) taken free, separate),
              )
        ]
      ]

  -- When the payloads are found, no file is written by two of them, and each pair of a datatype and a
  -- partition is either skipped, because all its files exist and none is to be overwritten, or
  -- is collected into the files of its own paths, in the order of the pairs.
  pub get_payloads-Routed :
      (payloads : List (Payload D M)) (skipping : List Partition)
      → get_payloads names hex_encode creates exists sink query ≡ ok (payloads, skipping)
      → Disjoint (map paths_of payloads)
        × Routed (pairs query.datatypes query.partitions) payloads skipping
  unfolding get_payloads Added
  get_payloads-Routed payloads skipping h =
      let (more, others, e, f, routed, separate) =
        payloads_loop-Added (pairs query.datatypes query.partitions) [] payloads [] skipping [] h in
      (
        subst (λ x. Disjoint (map paths_of x)) (sym e) (Separate-Disjoint [] more separate),
        subst (λ x. Routed (pairs query.datatypes query.partitions) x skipping) (sym e)
            (subst (λ x. Routed (pairs query.datatypes query.partitions) more x) (sym f) routed),
      )
