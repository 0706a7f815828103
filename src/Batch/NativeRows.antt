-- ===== src/Batch/NativeRows.antt =====
-- `native_storage_batch` of crates/freeze/src/types/state_override.rs decodes each row from the value of its own slot.
use mathlib.Core.List.{append_assoc, append-nil}
use mathlib.Core.Path.{subst}
use triodion.Prelude.{
  ℕ, ◌+◌, ◌-◌, ◌≡◌, refl, sym, ap, ◌∙◌, Bool, true, false, ltb, none, some, List, [], ◌∷◌, ◌++◌,
  map, flat_map, length, length-map, length-append, take, drop, ◌⊎◌, inl, inr, Bool-cases, All2,
  All2-append, when_true, when_false, if◌then◌else◌, arith,
}
use triodion.Prelude.Order.{Bytes}
use triodion.Prelude.Words.{checked_add}
use triodion.Errors.{CollectError}
use triodion.Batch.Native.{Item}
use triodion.Batch.Override.{StateReader, same_bytes}
use triodion.Batch.OverrideWords.{same_bytes-eq}
use triodion.Batch.NativeBatch.{
  lookup, set, or_default, build_request, decode_slice, take_values, native_storage_batch,
}
use triodion.Batch.NativeValues.{
  option_some, sum_some, unless_some, some_inj, lookup-set, slice_middle, checked_add-some, word_of,
  words_for, own_words, words_for-append, own_words_here, build_request-words_for,
}

when_some : {A : Type 0} (c : Bool) (a b : A) → (if c then some a else none) ≡ some b → a ≡ b
when_some true a b h = some_inj h
when_some false a b h = cc

map-append : {A B : Type 0} (f : A → B) (xs ys : List A) → map f (xs ++ ys) ≡ map f xs ++ map f ys
map-append f [] ys = refl
map-append f (x ∷ xs) ys = ap (◌∷◌ (f x)) (map-append f xs ys)

module _ {P R : Type 0} (reader : StateReader) (input_word : P → CollectError ⊎ ℕ)
    (decode_row : P → Bytes → CollectError ⊎ R) (chain : Bytes → Bytes → Bytes) where
  abbrev word : P → Bytes
  word = word_of reader input_word decode_row

  abbrev words : Bytes → List (Item P) → List Bytes
  words = words_for reader input_word decode_row

  -- The row decodes to this from the value that the chain has in its slot.
  abbrev pub Decodes : Bytes × P → R → Type 0
  Decodes (target, p) r = decode_row p (chain target (word p)) ≡ inr r

  abbrev pub rows_of : Item P → List (Bytes × P)
  rows_of item = map (λ p. (item.target, p)) item.rows

  decode_slice-Decodes :
      (target : Bytes) (rows : List P) (rs : List R)
      → decode_slice reader input_word decode_row rows (map (chain target) (map word rows))
        ≡ some rs
      → All2 Decodes (map (λ p. (target, p)) rows) rs
  unfolding decode_slice
  decode_slice-Decodes target [] rs h = subst (All2 Decodes []) (some_inj h) tt
  decode_slice-Decodes target (p ∷ rows) rs h =
      let (r, decoded, rest) = sum_some (decode_row p (chain target (word p))) _ rs h in
      let (others, later, last) =
        option_some
          (decode_slice reader input_word decode_row rows (map (chain target) (map word rows))) _ rs
          rest in
      subst (All2 Decodes (map (λ q. (target, q)) (p ∷ rows))) (some_inj last)
        (decoded, decode_slice-Decodes target rows others later)

  module _ (answer : List (Bytes × List Bytes)) (every : List (Item P))
      (own_values : (target : Bytes) (values : List Bytes)
        → lookup target answer ≡ some values
        → values ≡ map (chain target) (words target every)) where
    -- The slice of an item has the values of its rows.
    slice_here :
        (done : List (Item P)) (item : Item P) (items : List (Item P)) (values : List Bytes)
        (start end : ℕ)
        → every ≡ done ++ (item ∷ items)
        → lookup item.target answer ≡ some values
        → start ≡ length (words item.target done)
        → end ≡ start + length item.rows
        → take (end - start) (drop start values) ≡ map (chain item.target) (map word item.rows)
    slice_here done item items values start end split found at_start at_end =
        let f = chain item.target in
        let before = map f (words item.target done) in
        let here = map f (map word item.rows) in
        let after = map f (words item.target items) in
        let parts : values ≡ before ++ (here ++ after) =
          own_values item.target values found
          ∙ ap (λ xs. map f (words item.target xs)) split
          ∙ ap (map f)
              (words_for-append reader input_word decode_row item.target done (item ∷ items))
          ∙ ap (λ ws. map f (words item.target done ++ (ws ++ words item.target items)))
              (own_words_here reader input_word decode_row item)
          ∙ map-append f (words item.target done) (map word item.rows ++ words item.target items)
          ∙ ap (λ ws. before ++ ws) (map-append f (map word item.rows) (words item.target items)) in
        let first : start ≡ length before =
          at_start ∙ sym (length-map f (words item.target done)) in
        let count : end - start ≡ length here =
          omega (arith, at_end, length-map f (map word item.rows), length-map word item.rows) in
        ap (λ n. take n (drop start values)) count
        ∙ ap (λ n. take (length here) (drop n values)) first
        ∙ ap (λ vs. take (length here) (drop (length before) vs)) parts
        ∙ slice_middle before here after

    -- The cursor of a contract is the number of its values that are taken.
    Cursors : List (Bytes × ℕ) → List (Item P) → Type 0
    Cursors cursors done =
        (target : Bytes) → or_default (lookup target cursors) 0 ≡ length (words target done)

    set-Cursors :
        (done : List (Item P)) (item : Item P) (cursors : List (Bytes × ℕ)) (end : ℕ)
        → Cursors cursors done
        → end ≡ length (words item.target done) + length item.rows
        → Cursors (set item.target end cursors) (done ++ (item ∷ []))
    unfolding Cursors
    set-Cursors done item cursors end before at_end target =
        let found = lookup-set target item.target end 0 cursors in
        let split =
          ap length (words_for-append reader input_word decode_row target done (item ∷ [])) in
        let both = length-append (words target done) (words target (item ∷ [])) in
        let own = length-append (own_words reader input_word decode_row target item) [] in
        elim (Bool-cases (same_bytes item.target target)) [
          | inl same ↦
              let e = ap length (when_true (map word item.rows) [] same) in
              let n = ap (λ t. length (words t done)) (same_bytes-eq item.target target same) in
              found
              ∙ when_true _ _ same
              ∙ omega (arith, at_end, split, both, own, e, n, length-map word item.rows)
          | inr other ↦
              let e = ap length (when_false (map word item.rows) [] other) in
              found ∙ when_false _ _ other ∙ omega (arith, before target, split, both, own, e)
        ]

    take_values-Decodes :
        (done items : List (Item P)) (cursors ends : List (Bytes × ℕ)) (out rs : List R)
        → every ≡ done ++ items
        → Cursors cursors done
        → take_values reader input_word decode_row answer items cursors out ≡ some (rs, ends)
        → (more : List R) × (rs ≡ out ++ more) × All2 Decodes (flat_map rows_of items) more
    unfolding take_values Cursors
    take_values-Decodes done [] cursors ends out rs split at h =
        ([], ap (λ x. x.0) (sym (some_inj h)) ∙ sym (append-nil out), tt)
    take_values-Decodes done (item ∷ items) cursors ends out rs split before h =
        let (values, found, rest) = option_some (lookup item.target answer) _ (rs, ends) h in
        let start = or_default (lookup item.target cursors) 0 in
        let (end, added, inside) =
          option_some (checked_add start (length item.rows)) _ (rs, ends) rest in
        let (fits, sliced) = unless_some (ltb (length values) end) _ (rs, ends) inside in
        let (here, decoded, later) =
          option_some
            (decode_slice reader input_word decode_row item.rows
              (take (end - start) (drop start values)))
            _ (rs, ends) sliced in
        let at_end = checked_add-some start (length item.rows) end added in
        let slice =
          slice_here done item items values start end split found (before item.target) at_end in
        let now =
          decode_slice-Decodes item.target item.rows here
            (ap (decode_slice reader input_word decode_row item.rows) (sym slice) ∙ decoded) in
        let (more, e, all) =
          take_values-Decodes (done ++ (item ∷ [])) items (set item.target end cursors) ends
            (out ++ here) rs (split ∙ sym (append_assoc done (item ∷ []) items))
            (set-Cursors done item cursors end before
              (at_end ∙ ap (λ n. n + length item.rows) (before item.target)))
            later in
        (
          here ++ more,
          e ∙ append_assoc out here more,
          All2-append Decodes (rows_of item) (flat_map rows_of items) here more now all,
        )

-- The block of the first item. The items that are asked for together are all of one block.
abbrev pub first_block : {P : Type 0} → List (Item P) → ℕ
first_block [] = 0
first_block (first ∷ items) = first.block

module _ {P R : Type 0} (reader : StateReader) (input_word : P → CollectError ⊎ ℕ)
    (decode_row : P → Bytes → CollectError ⊎ R) (chain : ℕ → Bytes → Bytes → Bytes) where
  -- If the node that answers gives each contract that it names the chain's values, at the block that
  -- it is asked for, of the slots that were asked of it, in order, then the rows that
  -- `native_storage_batch` returns are those of the items, in order and none missing, each decoded
  -- from the chain's value in its own slot at the block of the first item, also where a contract's
  -- rows are split over several items.
  pub native_storage_batch-Decodes :
      (worth : Bool)
      (get_storage_values : ℕ
        → List (Bytes × List Bytes)
        → CollectError ⊎ List (Bytes × List Bytes))
      (items : List (Item P)) (rs : List R)
      → ((block : ℕ) (request answer : List (Bytes × List Bytes)) (target : Bytes)
            (values : List Bytes)
          → get_storage_values block request ≡ inr answer
          → lookup target answer ≡ some values
          → values ≡ map (chain block target) (or_default (lookup target request) []))
      → native_storage_batch reader input_word decode_row worth get_storage_values items ≡ some rs
      → All2
          (Decodes reader input_word decode_row (chain (first_block items)))
          (flat_map (rows_of reader input_word decode_row (chain (first_block items))) items)
          rs
  unfolding native_storage_batch Cursors
  native_storage_batch-Decodes worth get_storage_values [] rs honest h = absurd cc
  native_storage_batch-Decodes worth get_storage_values (first ∷ items) rs honest h =
      let every = first ∷ items in
      let at_block = chain first.block in
      let (tried, a) = unless_some _ _ rs h in
      let (small, b) = unless_some _ _ rs a in
      let (request, built, c) =
        option_some (build_request reader input_word decode_row every []) _ rs b in
      let (answer, got, d) = sum_some (get_storage_values first.block request) _ rs c in
      let ((out, cursors), taken, e) =
        option_some (take_values reader input_word decode_row answer every [] []) _ rs d in
      let (same, f) = unless_some _ _ rs e in
      let (more, g, all) =
        take_values-Decodes reader input_word decode_row at_block answer every
          (λ target values found.
            honest first.block request answer target values got found
            ∙ ap (map (at_block target)) (
                build_request-words_for reader input_word decode_row every [] request built target))
          [] every [] cursors [] out refl (λ target. refl) taken in
      subst
        (All2 (Decodes reader input_word decode_row at_block)
          (flat_map (rows_of reader input_word decode_row at_block) every))
        (sym g ∙ when_some _ out rs f) all
