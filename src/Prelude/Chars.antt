-- ===== src/Prelude/Chars.antt =====
-- Characters in texts: `split`, `replace`, prefixes, suffixes, and `parse` for unsigned integers.
use Prim.Native.Nat.{ℕ, ◌+◌, ◌-◌, ◌*◌}
use Prim.Native.Char.{Char, code}
use Prim.Native.String.{String, ◌++◌ as append}
use mathlib.Core.Bool.{Bool, true, false, ◌&&◌, ◌||◌}
use mathlib.Core.Option.{Option, none, some}
use mathlib.Core.List.{List, [], ◌∷◌}
use mathlib.Core.Path.{◌≡◌, refl}
use native.Mathlib.Omega.{arith}
use text.Mathlib.TextLemmas.{nil-append, cons-append}
use triodion.Prelude.Tests.{◌==◌, ltb, leb, if◌then◌else◌}

-- a character in front of the first piece
abbrev pub push_front : Char → List String → List String
push_front x [] = String.◌∷◌ x String.[] ∷ []
push_front x (s ∷ ss) = String.◌∷◌ x s ∷ ss

-- `text.split(c)`
unfoldable pub split : ℕ → String → List String
split c String.[] = "" ∷ []
split c (String.◌∷◌ x s) =
    let rest = split c s in if code x == c then "" ∷ rest else push_front x rest

-- `text.replace(c, "")`
unfoldable pub without_char : ℕ → String → String
without_char c String.[] = ""
without_char c (String.◌∷◌ x s) =
    let rest = without_char c s in if code x == c then rest else String.◌∷◌ x rest

-- `text.starts_with(c)`
unfoldable pub starts_with_char : ℕ → String → Bool
starts_with_char c String.[] = false
starts_with_char c (String.◌∷◌ x s) = code x == c

-- `text.ends_with(c)`
unfoldable pub ends_with_char : ℕ → String → Bool
ends_with_char c String.[] = false
ends_with_char c (String.◌∷◌ x String.[]) = code x == c
ends_with_char c (String.◌∷◌ x (String.◌∷◌ y s)) = ends_with_char c (String.◌∷◌ y s)

-- `&text[1..]`, where the first character is ASCII
unfoldable pub drop_first : String → String
drop_first String.[] = ""
drop_first (String.◌∷◌ x s) = s

-- `&text[..text.len() - 1]`, where the last character is ASCII
unfoldable pub drop_last : String → String
drop_last String.[] = ""
drop_last (String.◌∷◌ x String.[]) = ""
drop_last (String.◌∷◌ x (String.◌∷◌ y s)) = String.◌∷◌ x (drop_last (String.◌∷◌ y s))

-- the digits of an unsigned integer below `limit`, after `n`
unfoldable pub parse_digits : ℕ → ℕ → String → Option ℕ
parse_digits limit n String.[] = some n
parse_digits limit n (String.◌∷◌ x s) =
    let next = n * 10 + (code x - 48) in
    let rest = parse_digits limit next s in
    if leb 48 (code x) && leb (code x) 57 && ltb next limit then rest else none

-- at least one digit
unfoldable pub parse_digits1 : ℕ → String → Option ℕ
unfolding parse_digits
parse_digits1 limit String.[] = none
parse_digits1 limit (String.◌∷◌ x s) = parse_digits limit 0 (String.◌∷◌ x s)

-- `text.parse::<u64>()` and `text.parse::<u32>()`, by the first number that does not fit: an optional
-- plus sign, and at least one digit
unfoldable pub parse_unsigned : ℕ → String → Option ℕ
unfolding parse_digits1
parse_unsigned limit String.[] = none
parse_unsigned limit (String.◌∷◌ x s) =
    if code x == b'+' then parse_digits1 limit s else parse_digits1 limit (String.◌∷◌ x s)

-- `to_ascii_lowercase`, on the number of a character
abbrev pub lower_code : ℕ → ℕ
lower_code n = if leb 65 n && leb n 90 then n + 32 else n

-- Whether the lower-case text starts with `needle`.
unfoldable pub lower_starts_with : String → String → Bool
lower_starts_with text String.[] = true
lower_starts_with String.[] (String.◌∷◌ n needle) = false
lower_starts_with (String.◌∷◌ x text) (String.◌∷◌ n needle) =
    lower_code (code x) == code n && lower_starts_with text needle

-- `text.to_ascii_lowercase().contains(needle)`
unfoldable pub lower_contains : String → String → Bool
unfolding lower_starts_with
lower_contains String.[] needle = lower_starts_with String.[] needle
lower_contains (String.◌∷◌ x text) needle =
    lower_starts_with (String.◌∷◌ x text) needle || lower_contains text needle

pub lower_starts_with-append :
    (s t needle : String)
    → lower_starts_with s needle ≡ true
    → lower_starts_with (append s t) needle ≡ true
unfolding lower_starts_with
lower_starts_with-append s t String.[] h = refl
lower_starts_with-append String.[] t (String.◌∷◌ n needle) h = cc
lower_starts_with-append (String.◌∷◌ x s) t (String.◌∷◌ n needle) h =
    let here : (lower_code (code x) == code n) ≡ true = ground arith in
    let there : lower_starts_with s needle ≡ true = ground arith in
    rw (cons-append x s t) (ground (arith, here, lower_starts_with-append s t needle there))

pub lower_contains-start :
    (text needle : String)
    → lower_starts_with text needle ≡ true
    → lower_contains text needle ≡ true
unfolding lower_contains
lower_contains-start String.[] needle h = h
lower_contains-start (String.◌∷◌ x text) needle h = rw (lower_contains, h) refl

-- What a text contains, a longer text contains.
pub lower_contains-append :
    (s t needle : String)
    → lower_contains t needle ≡ true
    → lower_contains (append s t) needle ≡ true
unfolding lower_contains
lower_contains-append String.[] t needle h = rw (nil-append t) h
lower_contains-append (String.◌∷◌ x s) t needle h =
    let rest = lower_contains-append s t needle h in rw (cons-append x s t) (ground (arith, rest))
