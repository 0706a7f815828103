-- ===== src/Batch/ReadsLoop.antt =====
-- The loop of the readers of many words of crates/freeze/src/types/sources.rs: whichever way each chunk is
-- read, the values are those that are read one at a time.
use triodion.Prelude.{
  ◌≡◌, refl, sym, ap, none, some, List, [], ◌∷◌, ◌++◌, concat, ◌⊎◌, inl, inr, All, In,
  In-append_left, In-append_right, Bool-cases, when_true, when_false, if◌then◌else◌,
}
use triodion.Prelude.Outcome.{
  Outcome, ok, err, ◌>>=◌, try_map, returned, Settles, bind-err, bind-ok, returned-err, ok_inj,
  after_ok, try_map-Settles, returned-Settles,
}
use mathlib.Core.Path.{subst}
use triodion.Errors.{CollectError}
use triodion.Batch.Classify.{override_unavailable}
use triodion.Batch.Support.{
  OverrideSupport, worth_attempting, rule_out, reset_failures, exchange_unknown,
}
use triodion.Batch.Reads.{try_batched, read_loop}

module _ {I T : Type 0} (single : I → CollectError ⊎ T) where
  abbrev pub each : List I → Outcome CollectError (List T)
  each items = try_map (λ i. returned (single i)) items

  -- A read that fails fails on one of the items.
  pub try_map-fails :
      (items : List I) (e : CollectError)
      → each items ≡ err e
      → (i : I) × In i items × (single i ≡ inl e)
  unfolding try_map
  try_map-fails [] e h = cc
  try_map-fails (i ∷ items) e h = elim (bind-err (returned (single i)) _ e h) [
    | inl here ↦ (i, inl refl, returned-err (single i) e here)
    | inr (v, read, k) ↦ elim (bind-err (each items) _ e k) [
      | inl there ↦ let (j, k, l) = try_map-fails items e there in (j, inr k, l)
      | inr (vs, reads, l) ↦ absurd cc
    ]
  ]

  pub try_map-append :
      (xs ys : List I) (vs ws : List T)
      → each xs ≡ ok vs
      → each ys ≡ ok ws
      → each (xs ++ ys) ≡ ok (vs ++ ws)
  unfolding try_map
  try_map-append [] ys vs ws h k = rw (sym (ok_inj h)) k
  try_map-append (x ∷ xs) ys vs ws h k =
      let (v, read, rest) = bind-ok (returned (single x)) _ vs h in
      let (others, reads, last) = bind-ok (each xs) _ vs rest in
      let joined = try_map-append xs ys others ws reads k in
      rw (read, joined) (ap (λ us. ok (us ++ ws)) (ok_inj last))

-- The attempt settles: with its values, if it has them and was made, or with none.
pub try_batched-ends :
    {T : Type 0} (support : OverrideSupport) (attempt : Outcome CollectError (List T))
    → Settles attempt
    → ((after : OverrideSupport) × (values : List T) × (try_batched support attempt
          ≡ ok (after, some values))
        × (attempt ≡ ok values))
      ⊎ ((after : OverrideSupport) × (try_batched support attempt ≡ ok (after, none)))
unfolding try_batched
try_batched-ends support attempt (inl (values, e)) = elim (Bool-cases (worth_attempting support)) [
  | inl worth ↦
      inl (exchange_unknown (reset_failures support), values, rw (e) (when_true _ _ worth), e)
  | inr not_worth ↦ inr (support, rw (e) (when_false _ _ not_worth))
]
try_batched-ends support attempt (inr (failure, e)) = elim (Bool-cases (worth_attempting support)) [
  | inl worth ↦ inr (
    if override_unavailable failure then rule_out support else support,
    rw (e) (when_true _ _ worth),
  )
  | inr not_worth ↦ inr (support, rw (e) (when_false _ _ not_worth))
]

try_map-nil : {A B : Type 0} (f : A → Outcome CollectError B) → try_map f [] ≡ ok []
unfolding try_map
try_map-nil f = refl

-- What the loop ends with: the values that are read one at a time, or the error of one of these reads.
abbrev pub ReadsEach :
    {I T : Type 0}
    → (I → CollectError ⊎ T)
    → List I
    → Outcome CollectError (OverrideSupport × List T)
    → Type 0
ReadsEach {I} {T} single items ended =
    ((after : OverrideSupport) × (values : List T) × (ended ≡ ok (after, values))
      × (each single items ≡ ok values))
    ⊎ ((e : CollectError) × (i : I) × (ended ≡ err e) × In i items × (single i ≡ inl e))

-- The values of a chunk in front of what the rest of the loop ends with.
ReadsEach-append :
    {I T : Type 0} (single : I → CollectError ⊎ T) (chunk items : List I) (values : List T)
    (ended : Outcome CollectError (OverrideSupport × List T))
    → each single chunk ≡ ok values
    → ReadsEach single items ended
    → ReadsEach single (chunk ++ items) (ended >>= λ rest. ok (rest.0, values ++ rest.1))
ReadsEach-append single chunk items values ended read (inl (after, others, e, reads)) = inl (
  after,
  values ++ others,
  after_ok _ e refl,
  try_map-append single chunk items values others read reads,
)
ReadsEach-append single chunk items values ended read (inr (failure, i, e, here, fails)) =
    inr (failure, i, rw (e) refl, In-append_right i chunk items here, fails)

module _ {I T : Type 0} (batched : List I → Outcome CollectError (List T))
    (single : I → CollectError ⊎ T) (Fits : List I → Type 0)
    (settles : (chunk : List I) → Fits chunk → Settles (batched chunk))
    (agrees : (chunk : List I) (values : List T)
      → Fits chunk
      → batched chunk ≡ ok values
      → each single chunk ≡ ok values) where
  pub read_loop-ReadsEach :
      (chunks : List (List I)) (support : OverrideSupport)
      → All Fits chunks
      → ReadsEach single (concat chunks) (read_loop batched single chunks support)
  unfolding read_loop
  read_loop-ReadsEach [] support small =
      inl (support, [], refl, try_map-nil (λ i. returned (single i)))
  read_loop-ReadsEach (chunk ∷ chunks) support (here, small) =
      elim (try_batched-ends support (batched chunk) (settles chunk here)) [
        | inl (after, values, tried, got) ↦
            subst (ReadsEach single (chunk ++ concat chunks)) (sym (after_ok _ tried refl)) (
              ReadsEach-append single chunk (concat chunks) values
                (read_loop batched single chunks after) (agrees chunk values here got)
                (read_loop-ReadsEach chunks after small))
        | inr (after, tried) ↦
            elim (try_map-Settles (λ i. returned (single i)) (λ i. returned-Settles (single i))
              chunk) [
                | inl (values, read) ↦
                    subst (ReadsEach single (chunk ++ concat chunks))
                      (sym (after_ok _ tried (after_ok _ read refl)))
                      (ReadsEach-append single chunk (concat chunks) values
                        (read_loop batched single chunks after) read
                        (read_loop-ReadsEach chunks after small))
                | inr (failure, fails) ↦
                    let (i, within, alone) = try_map-fails single chunk failure fails in
                    inr (
                      failure,
                      i,
                      after_ok _ tried (rw (fails) refl),
                      In-append_left i chunk (concat chunks) within,
                      alone,
                    )
              ]
      ]
