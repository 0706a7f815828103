-- ===== src/Batch/OverrideAnswers.antt =====
-- Which answers the state-override extractor of crates/freeze/src/types/state_override.rs accepts.
use mathlib.Core.List.{append-nil}
use mathlib.Core.Path.{subst}
use triodion.Prelude.{
  ℕ, suc, ◌+◌, ◌-◌, ◌*◌, ◌^◌, ◌<◌, min, ◌≡◌, refl, sym, ap, ◌∙◌, String, true, false, not, some,
  List, [], ◌∷◌, ◌++◌, length, length-append, concat, concat-append, ◌⊎◌, inl, inr, All-append,
  All-split, ◌==◌, ==_iff, if◌then◌else◌, Bool-cases, arith,
}
use triodion.Prelude.Order.{Bytes}
use triodion.Prelude.Chars.{lower_contains-append, lower_contains-start, lower_starts_with-append}
use triodion.Prelude.Text.{decimal}
use triodion.Prelude.Outcome.{Outcome, ok, err}
use triodion.Errors.{CollectError}
use triodion.Batch.Classify.{override_unavailable}
use triodion.Batch.Grouping.{chunks}
use triodion.Batch.Override.{
  StateReader, uses_sentinel, sentinel_value, same_bytes, pop, decode_response, ignored_marker,
  sentinel_marker, wrong_length, wrong_sentinel,
}
use triodion.Batch.OverrideWords.{
  pop_last, last_of, last_inj, front_inj, same_bytes_refl, same_bytes-eq, Sized, length-concat,
  chunks-words, cut, first_marker, second_marker, ignored_is_marked, sentinel_is_marked,
}

module _ (show_word : Bytes → String) where
  -- the words of an answer that shows that the override was applied
  abbrev pub Proves : StateReader → ℕ → Bytes → List Bytes → Type 0
  Proves reader n bytes words =
      Sized 32 words
      × (length words ≡ n)
      × (bytes ≡ concat words ++ (if uses_sentinel reader then sentinel_value else []))

  -- Either the words are returned, or the answer is refused, there are no such words, and the error
  -- rules the override out.
  abbrev pub Verified : StateReader → ℕ → Bytes → Outcome CollectError (List Bytes) → Type 0
  Verified reader n bytes r =
      ((words : List Bytes) × (r ≡ ok words) × Proves reader n bytes words)
      ⊎ ((e : CollectError) × (r ≡ err e)
          × (override_unavailable e ≡ true)
          × ((words : List Bytes) → Proves reader n bytes words → ⊥))

  wrong_length-unavailable :
      (got want expected : ℕ) → override_unavailable (wrong_length got want expected) ≡ true
  wrong_length-unavailable got want expected = first_marker _ (
      lower_contains-append "state-override extractor returned " _ ignored_marker (
        lower_contains-append (decimal got) _ ignored_marker (
          lower_contains-append " bytes, expected " _ ignored_marker (
            lower_contains-append (decimal want) _ ignored_marker (
              lower_contains-append " (" _ ignored_marker
                (lower_contains-append (decimal expected) _ ignored_marker ignored_is_marked))))))

  wrong_sentinel-unavailable :
      (sentinel : Bytes) → override_unavailable (wrong_sentinel show_word sentinel) ≡ true
  wrong_sentinel-unavailable sentinel = second_marker _ (
      lower_contains-start _ sentinel_marker
        (lower_starts_with-append sentinel_marker _ sentinel_marker sentinel_is_marked))

  module _ (reader : StateReader) (bytes : Bytes) (n : ℕ) (small : n < 2 ^ 58) where
    abbrev expected : ℕ
    expected = n + (if uses_sentinel reader then 1 else 0)

    abbrev want : ℕ
    want = min (expected * 32) (2 ^ 64 - 1)

    decode_wrong_length :
        (length bytes == want) ≡ false
        → decode_response show_word reader bytes n ≡ err (wrong_length (length bytes) want expected)
    unfolding decode_response
    decode_wrong_length h = rw (h) refl

    decode_plain :
        (length bytes == want) ≡ true
        → uses_sentinel reader ≡ false
        → decode_response show_word reader bytes n ≡ ok (chunks 32 bytes)
    unfolding decode_response
    decode_plain h k = rw (h, k) refl

    decode_popped :
        (rest : List Bytes) (last : Bytes)
        → (length bytes == want) ≡ true
        → uses_sentinel reader ≡ true
        → pop (chunks 32 bytes) ≡ some (rest, last)
        → decode_response show_word reader bytes n ≡ (
            if not (same_bytes last sentinel_value)
            then err (wrong_sentinel show_word last)
            else ok rest)
    unfolding decode_response
    decode_popped rest last h k l = rw (h, k, l) refl

    want_plain : uses_sentinel reader ≡ false → want ≡ n * 32
    want_plain k = rw (k) (omega (arith, small))

    want_sentinel : uses_sentinel reader ≡ true → want ≡ suc n * 32
    want_sentinel k = rw (k) (omega (arith, small))

    -- the length of an answer that proves words
    proven_length : (words : List Bytes) → Proves reader n bytes words → length bytes ≡ want
    proven_length words (sized, e, joined) =
        let total = ap length joined ∙ length-append (concat words) _ in
        let front = length-concat 32 (omega arith) words sized in
        elim (Bool-cases (uses_sentinel reader)) [
          | inl sentinel ↦
              let back : length (if uses_sentinel reader then sentinel_value else []) ≡ 32 =
                rw (sentinel) refl in
              omega (arith, want_sentinel sentinel)
          | inr plain ↦
              let back : length (if uses_sentinel reader then sentinel_value else []) ≡ 0 =
                rw (plain) refl in
              omega (arith, want_plain plain)
        ]

    proven_last :
        uses_sentinel reader ≡ true
        → (words : List Bytes) → Proves reader n bytes words
        → pop (chunks 32 bytes) ≡ some (words, sentinel_value)
    proven_last k words (sized, e, joined) =
        let tail : (if uses_sentinel reader then sentinel_value else []) ≡ sentinel_value =
          rw (k) refl in
        let one : concat (sentinel_value ∷ []) ≡ sentinel_value = append-nil sentinel_value in
        let all : bytes ≡ concat (words ++ (sentinel_value ∷ [])) =
          joined
          ∙ ap (λ xs. concat words ++ xs) (tail ∙ sym one)
          ∙ sym (concat-append words (sentinel_value ∷ [])) in
        ap (λ bs. pop (chunks 32 bs)) all
        ∙ ap pop (
            chunks-words 32 (omega arith) (words ++ (sentinel_value ∷ []))
              (All-append (λ word. length word ≡ 32) words (sentinel_value ∷ []) sized (refl, tt)))
        ∙ pop_last words sentinel_value

    wrong_length-Verified :
        (length bytes == want) ≡ false
        → Verified reader n bytes (decode_response show_word reader bytes n)
    wrong_length-Verified h = inr (
      wrong_length (length bytes) want expected,
      decode_wrong_length h,
      wrong_length-unavailable (length bytes) want expected,
      λ words proof. absurd (ground (arith, h, proven_length words proof)),
    )

    plain-Verified :
        (length bytes == want) ≡ true
        → uses_sentinel reader ≡ false
        → Verified reader n bytes (decode_response show_word reader bytes n)
    plain-Verified h k =
        let exact : length bytes ≡ n * 32 = (==_iff (length bytes) want).0 h ∙ want_plain k in
        let (words, sized, e, joined) = cut 32 (omega arith) n bytes exact in
        let whole : chunks 32 bytes ≡ words =
          ap (chunks 32) joined ∙ chunks-words 32 (omega arith) words sized in
        inl (
          words,
          decode_plain h k ∙ ap ok whole,
          (sized, e, rw (k) (joined ∙ sym (append-nil (concat words)))),
        )

    sentinel-Verified :
        (length bytes == want) ≡ true
        → uses_sentinel reader ≡ true
        → Verified reader n bytes (decode_response show_word reader bytes n)
    sentinel-Verified h k =
        let exact : length bytes ≡ suc n * 32 =
          (==_iff (length bytes) want).0 h ∙ want_sentinel k in
        let (all, sized, e, joined) = cut 32 (omega arith) (suc n) bytes exact in
        let (rest, last, split) = last_of all n e in
        let (front, back) =
          All-split (λ word. length word ≡ 32) rest (last ∷ []) (subst (Sized 32) split sized) in
        let whole : pop (chunks 32 bytes) ≡ some (rest, last) =
          ap (λ bs. pop (chunks 32 bs)) joined
          ∙ ap pop (chunks-words 32 (omega arith) all sized)
          ∙ ap pop split
          ∙ pop_last rest last in
        elim (Bool-cases (same_bytes last sentinel_value)) [
          | inl same ↦ inl (
            rest,
            decode_popped rest last h k whole ∙ rw (same) refl,
            (
              front,
              omega (arith, e, ap length split, length-append rest (last ∷ [])),
              rw (k) (
                  joined
                  ∙ ap concat split
                  ∙ concat-append rest (last ∷ [])
                  ∙ ap (λ xs. concat rest ++ xs)
                      (append-nil last ∙ same_bytes-eq last sentinel_value same)),
            ),
          )
          | inr other ↦ inr (
            wrong_sentinel show_word last,
            decode_popped rest last h k whole ∙ rw (other) refl,
            wrong_sentinel-unavailable last,
            λ words proof.
                let alike = last_inj (sym whole ∙ proven_last k words proof) in
                absurd (
                  ground (
                    arith,
                    other,
                    ap (λ xs. same_bytes xs sentinel_value) alike,
                    same_bytes_refl sentinel_value,
                  )),
          )
        ]

  -- For every answer to a request for fewer than 2^58 words, `decode_response` returns the words exactly
  -- if the answer is these words, as many as were asked for, of 32 bytes each, and, for the storage
  -- reader, the sentinel's value after them. Otherwise it returns an error, and this error rules the
  -- override out. It never panics.
  pub decode_response-Verified :
      (reader : StateReader) (bytes : Bytes) (n : ℕ)
      → n < 2 ^ 58
      → Verified reader n bytes (decode_response show_word reader bytes n)
  decode_response-Verified reader bytes n small =
      elim (Bool-cases (length bytes == want reader bytes n small)) [
        | inr other ↦ wrong_length-Verified reader bytes n small other
        | inl same ↦ elim (Bool-cases (uses_sentinel reader)) [
          | inl sentinel ↦ sentinel-Verified reader bytes n small same sentinel
          | inr plain ↦ plain-Verified reader bytes n small same plain
        ]
      ]

  pub proven_plain :
      (reader : StateReader) (bytes : Bytes) (n : ℕ) (words : List Bytes)
      → uses_sentinel reader ≡ false
      → Proves reader n bytes words
      → chunks 32 bytes ≡ words
  proven_plain reader bytes n words k (sized, e, joined) =
      let tail : (if uses_sentinel reader then sentinel_value else []) ≡ [] = rw (k) refl in
      ap (chunks 32) (joined ∙ ap (λ xs. concat words ++ xs) tail ∙ append-nil (concat words))
      ∙ chunks-words 32 (omega arith) words sized

  -- An answer proves at most one list of words.
  proven_alike :
      (reader : StateReader) (bytes : Bytes) (n : ℕ) (words others : List Bytes)
      → n < 2 ^ 58
      → Proves reader n bytes words
      → Proves reader n bytes others
      → words ≡ others
  proven_alike reader bytes n words others small h k = elim (Bool-cases (uses_sentinel reader)) [
    | inl sentinel ↦ front_inj (
        sym (proven_last reader bytes n small sentinel words h)
        ∙ proven_last reader bytes n small sentinel others k)
    | inr plain ↦
        sym (proven_plain reader bytes n words plain h) ∙ proven_plain reader bytes n others plain k
  ]

  -- The words that an answer proves are returned.
  pub decode_response-Proves :
      (reader : StateReader) (bytes : Bytes) (n : ℕ) (words : List Bytes)
      → n < 2 ^ 58
      → Proves reader n bytes words
      → decode_response show_word reader bytes n ≡ ok words
  decode_response-Proves reader bytes n words small h =
      elim (decode_response-Verified reader bytes n small) [
        | inl (others, e, k) ↦ e ∙ ap ok (sym (proven_alike reader bytes n words others small h k))
        | inr (e, k, l, none_proven) ↦ absurd (none_proven words h)
      ]
