-- ===== src/Batch/NativeValues.antt =====
-- `native_storage_batch` of crates/freeze/src/types/state_override.rs gives each row the value of its own slot.
use mathlib.Core.List.{append_assoc, append-nil}
use triodion.Prelude.{
  ℕ, ◌+◌, ◌^◌, ◌≡◌, refl, sym, ap, ◌∙◌, Bool, true, false, ltb, Option, none, some, List, [], ◌∷◌,
  ◌++◌, map, flat_map, length, take, drop, take-append_length, drop-append_length, ◌⊎◌, inl, inr,
  Bool-cases, at_inr, when_true, when_false, if◌then◌else◌, arith,
}
use triodion.Prelude.Order.{Bytes}
use triodion.Prelude.Words.{checked_add}
use triodion.Errors.{CollectError}
use triodion.Batch.Native.{Item}
use triodion.Batch.Override.{StateReader, be_bytes, same_bytes}
use triodion.Batch.OverrideWords.{same_bytes_refl, same_bytes-eq}
use triodion.Batch.NativeBatch.{lookup, set, or_default, row_words, build_request}

pub some_inj : {A : Type 0} {a b : A} → ◌≡◌ {A = Option A} (some a) (some b) → a ≡ b
some_inj h = cc

none_not : {A : Type 0} {a : A} → ◌≡◌ {A = Option A} (some a) none → ⊥
none_not h = cc

pub option_some :
    {A B : Type 0} (m : Option A) (f : A → Option B) (b : B)
    → elim m [ none ↦ none | some a ↦ f a ] ≡ some b
    → (a : A) × (m ≡ some a) × (f a ≡ some b)
option_some none f b h = absurd (none_not (sym h))
option_some (some a) f b h = (a, refl, h)

pub sum_some :
    {E A B : Type 0} (m : E ⊎ A) (f : A → Option B) (b : B)
    → elim m [ inl e ↦ none | inr a ↦ f a ] ≡ some b
    → (a : A) × (m ≡ inr a) × (f a ≡ some b)
sum_some (inl e) f b h = absurd (none_not (sym h))
sum_some (inr a) f b h = (a, refl, h)

pub unless_some :
    {B : Type 0} (c : Bool) (m : Option B) (b : B)
    → (if c then none else m) ≡ some b
    → (c ≡ false) × (m ≡ some b)
unless_some true m b h = absurd (none_not (sym h))
unless_some false m b h = (refl, h)

-- What a map has after a key is set.
pub lookup-set :
    {A : Type 0} (key target : Bytes) (a b : A) (entries : List (Bytes × A))
    → or_default (lookup key (set target a entries)) b
      ≡ (if same_bytes target key then a else or_default (lookup key entries) b)
unfolding lookup set
lookup-set key target a b [] = elim (Bool-cases (same_bytes target key)) [
  | inl same ↦ rw (same) refl
  | inr other ↦ rw (other) refl
]
lookup-set key target a b ((k, old) ∷ entries) = elim (Bool-cases (same_bytes k target)) [
  | inl same ↦ elim (Bool-cases (same_bytes target key)) [
    | inl here ↦ rw (same_bytes-eq k target same, same_bytes_refl target, here) refl
    | inr elsewhere ↦ rw (same_bytes-eq k target same, same_bytes_refl target, elsewhere) refl
  ]
  | inr other ↦ elim (Bool-cases (same_bytes k key)) [
    | inr elsewhere ↦ rw (other, elsewhere) (lookup-set key target a b entries)
    | inl here ↦ elim (Bool-cases (same_bytes target key)) [
      | inl both ↦
          let e = same_bytes-eq k key here ∙ sym (same_bytes-eq target key both) in
          absurd (ground (arith, other, ap (λ x. same_bytes x target) e, same_bytes_refl target))
      | inr apart ↦ rw (other, here, apart) refl
    ]
  ]
]

-- the middle of three lists
pub slice_middle :
    {A : Type 0} (xs ys zs : List A) → take (length ys) (drop (length xs) (xs ++ (ys ++ zs))) ≡ ys
slice_middle xs ys zs =
    ap (take (length ys)) (drop-append_length xs (ys ++ zs)) ∙ take-append_length ys zs

pub checked_add-some : (a b c : ℕ) → checked_add a b ≡ some c → c ≡ a + b
checked_add-some a b c h = elim (Bool-cases (ltb (a + b) (2 ^ 64))) [
  | inl fits ↦ some_inj (sym h ∙ when_true (some (a + b)) none fits)
  | inr over ↦ absurd (none_not (sym h ∙ when_false (some (a + b)) none over))
]

module _ {P R : Type 0} (reader : StateReader) (input_word : P → CollectError ⊎ ℕ)
    (decode_row : P → Bytes → CollectError ⊎ R) where
  abbrev pub word_of : P → Bytes
  word_of p = elim (input_word p) [ inl e ↦ [] | inr word ↦ be_bytes 32 word ]

  -- the items' words for a contract
  abbrev pub own_words : Bytes → Item P → List Bytes
  own_words target item = if same_bytes item.target target then map word_of item.rows else []

  abbrev pub words_for : Bytes → List (Item P) → List Bytes
  words_for target items = flat_map (own_words target) items

  row_words-word_of :
      (rows : List P) (words : List Bytes)
      → row_words reader input_word decode_row rows ≡ some words
      → words ≡ map word_of rows
  unfolding row_words
  row_words-word_of [] words h = sym (some_inj h)
  row_words-word_of (p ∷ rows) words h =
      let (word, given, rest) = sum_some (input_word p) _ words h in
      let (others, later, last) =
        option_some (row_words reader input_word decode_row rows) _ words rest in
      sym (some_inj last)
      ∙ ap (λ w. w ∷ others) (sym (at_inr _ _ given))
      ∙ ap (◌∷◌ (word_of p)) (row_words-word_of rows others later)

  pub words_for-append :
      (target : Bytes) (xs ys : List (Item P))
      → words_for target (xs ++ ys) ≡ words_for target xs ++ words_for target ys
  words_for-append target [] ys = refl
  words_for-append target (x ∷ xs) ys =
      ap (λ ws. own_words target x ++ ws) (words_for-append target xs ys)
      ∙ sym (append_assoc (own_words target x) (words_for target xs) (words_for target ys))

  pub own_words_here : (item : Item P) → own_words item.target item ≡ map word_of item.rows
  own_words_here item = when_true _ _ (same_bytes_refl item.target)

  abbrev pub words_at : Bytes → List (Bytes × List Bytes) → List Bytes
  words_at target request = or_default (lookup target request) []

  -- what one item adds to the request
  words_at-set :
      (target : Bytes) (item : Item P) (request : List (Bytes × List Bytes))
      → words_at target
          (set item.target (words_at item.target request ++ map word_of item.rows) request)
        ≡ words_at target request ++ own_words target item
  words_at-set target item request =
      let found =
        lookup-set target item.target (words_at item.target request ++ map word_of item.rows) []
          request in
      elim (Bool-cases (same_bytes item.target target)) [
        | inl same ↦
            found
            ∙ when_true _ _ same
            ∙ ap (λ t. words_at t request ++ map word_of item.rows)
                (same_bytes-eq item.target target same)
            ∙ ap (λ ws. words_at target request ++ ws) (sym (when_true _ _ same))
        | inr other ↦
            found
            ∙ when_false _ _ other
            ∙ sym (append-nil (words_at target request))
            ∙ ap (λ ws. words_at target request ++ ws) (sym (when_false _ _ other))
      ]

  -- The request has the words of each contract's rows, in their order.
  pub build_request-words_for :
      (items : List (Item P)) (request built : List (Bytes × List Bytes))
      → build_request reader input_word decode_row items request ≡ some built
      → (target : Bytes) → words_at target built ≡ words_at target request ++ words_for target items
  unfolding build_request
  build_request-words_for [] request built h target =
      ap (words_at target) (sym (some_inj h)) ∙ sym (append-nil (words_at target request))
  build_request-words_for (item ∷ items) request built h target =
      let (words, given, rest) =
        option_some (row_words reader input_word decode_row item.rows) _ built h in
      let e = row_words-word_of item.rows words given in
      build_request-words_for items
        (set item.target (words_at item.target request ++ words) request) built rest target
      ∙ ap
          (λ ws.
            words_at target (set item.target (words_at item.target request ++ ws) request)
            ++ words_for target items)
          e
      ∙ ap (λ ws. ws ++ words_for target items) (words_at-set target item request)
      ∙ append_assoc (words_at target request) (own_words target item) (words_for target items)
