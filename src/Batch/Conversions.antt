-- ===== src/Batch/Conversions.antt =====
-- crates/freeze/src/types/conversions.rs: numbers from the words that a contract returns.
use mathlib.Core.List.{append_assoc}
use native.Mathlib.Nat.{pow-suc}
use triodion.Prelude.{
  ℕ, zero, suc, ◌+◌, ◌*◌, ◌/◌, ◌%◌, ◌^◌, ◌<◌, ◌≤◌, ◌≡◌, refl, sym, ap, ◌∙◌, true, ◌&&◌, Option,
  none, some, [], ◌∷◌, ◌++◌, length, take, drop, take-append_length, drop-append_length, ◌⊎◌, inl,
  inr, Bool-cases, when_true, when_false, ltb, ◌==◌, ==_iff, if◌then◌else◌, arith,
}
use triodion.Prelude.Order.{Bytes}
use triodion.Errors.{CollectError, collect_error}
use triodion.Batch.Override.{be_bytes, from_be_bytes, from_be_bytes_onto, all_zero}
use triodion.Batch.Extractor.{length-be_bytes}

unfoldable pub bytes_to_u32 : Bytes → CollectError ⊎ ℕ
bytes_to_u32 value =
    if length value == 32 && all_zero (take 28 value)
    then inr (from_be_bytes (drop 28 value))
    else inl (collect_error "could not convert bytes to u32")

unfoldable pub decode_u256_word : Bytes → Option ℕ
decode_u256_word bytes = if length bytes == 32 then some (from_be_bytes bytes) else none

onto-append :
    (n b : ℕ) (xs : Bytes)
    → from_be_bytes_onto n (xs ++ (b ∷ [])) ≡ from_be_bytes_onto n xs * 256 + b
onto-append n b [] = refl
onto-append n b (x ∷ xs) = onto-append (n * 256 + x) b xs

from_be_bytes-be_bytes : (width n : ℕ) → n < 256 ^ width → from_be_bytes (be_bytes width n) ≡ n
unfolding be_bytes
from_be_bytes-be_bytes zero n h = omega (arith, h)
from_be_bytes-be_bytes (suc width) n h =
    let larger : 256 ^ suc width ≡ 256 ^ width * 256 = pow-suc 256 width in
    let below : n / 256 < 256 ^ width = omega (arith, h, larger) in
    let parts : n / 256 * 256 + n % 256 ≡ n = omega arith in
    onto-append 0 (n % 256) (be_bytes width (n / 256))
    ∙ ap (λ m. m * 256 + n % 256) (from_be_bytes-be_bytes width (n / 256) below)
    ∙ parts

all_zero-append :
    (xs : Bytes) (b : ℕ) → all_zero xs ≡ true → b ≡ 0 → all_zero (xs ++ (b ∷ [])) ≡ true
all_zero-append [] b h e = ground (arith, e)
all_zero-append (x ∷ xs) b h e = ground (arith, h, all_zero-append xs b (ground (arith, h)) e)

zero_bytes : (width n : ℕ) → n ≡ 0 → all_zero (be_bytes width n) ≡ true
unfolding be_bytes
zero_bytes zero n e = refl
zero_bytes (suc width) n e =
    all_zero-append (be_bytes width (n / 256)) (n % 256)
      (zero_bytes width (n / 256) (omega (arith, e))) (omega (arith, e))

all_zero-zero : (xs : Bytes) → all_zero xs ≡ true → from_be_bytes_onto 0 xs ≡ 0
all_zero-zero [] h = refl
all_zero-zero (x ∷ xs) h =
    let e : x ≡ 0 = ground (arith, h) in
    let n : 0 * 256 + x ≡ 0 = omega (arith, e) in
    ap (λ m. from_be_bytes_onto m xs) n ∙ all_zero-zero xs (ground (arith, h))

-- the last four bytes
last_four : ℕ → Bytes
last_four n = n / 256 / 256 / 256 % 256 ∷ n / 256 / 256 % 256 ∷ n / 256 % 256 ∷ n % 256 ∷ []

four_more :
    (width n : ℕ)
    → be_bytes (suc (suc (suc (suc width)))) n
      ≡ be_bytes width (n / 256 / 256 / 256 / 256) ++ last_four n
unfolding be_bytes last_four
four_more width n =
    let front = be_bytes width (n / 256 / 256 / 256 / 256) in
    ap (λ xs. (xs ++ (n / 256 % 256 ∷ [])) ++ (n % 256 ∷ []))
      (append_assoc front (n / 256 / 256 / 256 % 256 ∷ []) (n / 256 / 256 % 256 ∷ []))
    ∙ ap (λ xs. xs ++ (n % 256 ∷ []))
        (append_assoc front (n / 256 / 256 / 256 % 256 ∷ n / 256 / 256 % 256 ∷ [])
          (n / 256 % 256 ∷ []))
    ∙ append_assoc front (n / 256 / 256 / 256 % 256 ∷ n / 256 / 256 % 256 ∷ n / 256 % 256 ∷ [])
        (n % 256 ∷ [])

from_last_four : (n : ℕ) → n < 2 ^ 32 → from_be_bytes (last_four n) ≡ n
unfolding last_four
from_last_four n h = omega (arith, h)

module _ (n : ℕ) (word : n < 256 ^ 32) where
  abbrev high : ℕ
  high = n / 256 / 256 / 256 / 256

  split_word : be_bytes 32 n ≡ be_bytes 28 high ++ last_four n
  split_word = four_more 28 n

  high_bytes : take 28 (be_bytes 32 n) ≡ be_bytes 28 high
  high_bytes =
      ap (take 28) split_word
      ∙ ap (λ k. take k (be_bytes 28 high ++ last_four n)) (sym (length-be_bytes 28 high))
      ∙ take-append_length (be_bytes 28 high) (last_four n)

  low_bytes : drop 28 (be_bytes 32 n) ≡ last_four n
  low_bytes =
      ap (drop 28) split_word
      ∙ ap (λ k. drop k (be_bytes 28 high ++ last_four n)) (sym (length-be_bytes 28 high))
      ∙ drop-append_length (be_bytes 28 high) (last_four n)

  -- A number that a contract returns as a 32-byte word, the most significant byte first, is decoded from it; as a
  -- `u32` it is decoded exactly if it is below 2^32, and is an error otherwise.
  pub decode_u256_word-be_bytes :
      (decode_u256_word (be_bytes 32 n) ≡ some n)
      × (((n < 2 ^ 32) × (bytes_to_u32 (be_bytes 32 n) ≡ inr n))
          ⊎ ((2 ^ 32 ≤ n)
              × (bytes_to_u32 (be_bytes 32 n)
                  ≡ inl (collect_error "could not convert bytes to u32"))))
  unfolding decode_u256_word bytes_to_u32
  decode_u256_word-be_bytes =
      let sized : (length (be_bytes 32 n) == 32) ≡ true =
        (==_iff (length (be_bytes 32 n)) 32).1 (length-be_bytes 32 n) in
      let small : high < 256 ^ 28 = omega (arith, word) in
      (
        when_true _ _ sized ∙ ap some (from_be_bytes-be_bytes 32 n word),
        elim (Bool-cases (ltb n (2 ^ 32))) [
          | inl below ↦
              let fits : n < 2 ^ 32 = ground (arith, below) in
              let none_high : high ≡ 0 = omega (arith, fits) in
              let zeros = ap all_zero high_bytes ∙ zero_bytes 28 high none_high in
              inl (
                fits,
                when_true {b = length (be_bytes 32 n) == 32 && all_zero (take 28 (be_bytes 32 n))} _
                      _ (ground (arith, sized, zeros))
                    ∙ ap inr (ap from_be_bytes low_bytes ∙ from_last_four n fits),
              )
          | inr above ↦
              let large : 2 ^ 32 ≤ n = ground (arith, above) in
              inr (
                large,
                elim (Bool-cases (all_zero (take 28 (be_bytes 32 n)))) [
                  | inr other ↦
                      when_false
                        {b = length (be_bytes 32 n) == 32 && all_zero (take 28 (be_bytes 32 n))} _ _
                        (ground (arith, other))
                  | inl zeros ↦
                      let e =
                        all_zero-zero (be_bytes 28 high) (sym (ap all_zero high_bytes) ∙ zeros) in
                      let none_high : high ≡ 0 = sym (from_be_bytes-be_bytes 28 high small) ∙ e in
                      absurd (omega (arith, none_high, large))
                ],
              )
        ],
      )
