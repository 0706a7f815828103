-- ===== src/Batch/Override.antt =====
-- The state-override extractor of crates/freeze/src/types/state_override.rs: the bytecode that it injects,
-- the request that it sends, and how it reads the answer. A word of 256 bits is a number; an address, a
-- slot and a value are lists of bytes.
use triodion.Prelude.{
  ℕ, zero, suc, ◌+◌, ◌-◌, ◌*◌, ◌/◌, ◌%◌, ◌^◌, min, String, Bool, true, false, not, ◌&&◌, Option,
  none, some, List, [], ◌∷◌, ◌++◌, length, take, drop, flat_map, ltb, ◌==◌, if◌then◌else◌,
}
use triodion.Prelude.Order.{Bytes}
use triodion.Prelude.Outcome.{Outcome, ok, err, panic}
use triodion.Prelude.Text.{append, decimal}
use triodion.Errors.{CollectError, collect_error}
use triodion.Batch.Grouping.{chunks}

pub data StateReader : Type 0 where
  storage balance code_hash code_size : StateReader

abbrev pub scratch_address : Bytes
scratch_address =
    0 ∷ 0 ∷ 0 ∷ 0 ∷ 0 ∷ 0 ∷ 0 ∷ 0 ∷ 0 ∷ 0 ∷ 0 ∷ 0 ∷ 0 ∷ 0 ∷ 0 ∷ 0 ∷ 0 ∷ 3 ∷ 19 ∷ 55 ∷ []

abbrev pub sentinel_slot : Bytes
sentinel_slot =
    125 ∷ 237 ∷ 161 ∷ 117 ∷ 11 ∷ 30 ∷ 229 ∷ 16 ∷ 126 ∷ 92 ∷ 161 ∷ 30 ∷ 208 ∷ 11 ∷ 165 ∷ 229 ∷ 16
    ∷ 173 ∷ 237 ∷ 192 ∷ 222 ∷ 94 ∷ 119 ∷ 30 ∷ 81 ∷ 11 ∷ 94 ∷ 119 ∷ 30 ∷ 26 ∷ 190 ∷ 21 ∷ []

abbrev pub sentinel_value : Bytes
sentinel_value =
    14 ∷ 218 ∷ 192 ∷ 222 ∷ 21 ∷ 250 ∷ 17 ∷ 237 ∷ 186 ∷ 208 ∷ 94 ∷ 119 ∷ 30 ∷ 11 ∷ 173 ∷ 192 ∷ 222
    ∷ 250 ∷ 206 ∷ 15 ∷ 241 ∷ 206 ∷ 13 ∷ 213 ∷ 13 ∷ 219 ∷ 161 ∷ 26 ∷ 221 ∷ 30 ∷ 90 ∷ 254 ∷ []

abbrev pub reserved_address_ceiling : ℕ
reserved_address_ceiling = 65536

abbrev pub opcode_offset : ℕ
opcode_offset = 11

abbrev pub template : Bytes
template =
    96 ∷ 0 ∷ 91 ∷ 128 ∷ 54 ∷ 20 ∷ 96 ∷ 20 ∷ 87 ∷ 128 ∷ 53 ∷ 84 ∷ 129 ∷ 82 ∷ 96 ∷ 32 ∷ 1 ∷ 96 ∷ 2
    ∷ 86 ∷ 91 ∷ 54 ∷ 96 ∷ 0 ∷ 243 ∷ []

unfoldable pub opcode : StateReader → ℕ
opcode storage = 84
opcode balance = 49
opcode code_hash = 63
opcode code_size = 59

-- `code[index] = byte`
abbrev pub set_byte : Bytes → ℕ → ℕ → Bytes
set_byte [] index byte = []
set_byte (b ∷ code) zero byte = byte ∷ code
set_byte (b ∷ code) (suc index) byte = b ∷ set_byte code index byte

unfoldable pub bytecode : StateReader → Bytes
unfolding opcode
bytecode reader = set_byte template opcode_offset (opcode reader)

unfoldable pub injects_at_target : StateReader → Bool
injects_at_target storage = true
injects_at_target _ = false

unfoldable pub uses_sentinel : StateReader → Bool
unfolding injects_at_target
uses_sentinel reader = injects_at_target reader

-- The `width` bytes of a number, the most significant first: `to_be_bytes`.
unfoldable pub be_bytes : ℕ → ℕ → Bytes
be_bytes zero n = []
be_bytes (suc width) n = be_bytes width (n / 256) ++ (n % 256 ∷ [])

-- The number that the bytes stand for: `from_be_bytes`.
abbrev pub from_be_bytes_onto : ℕ → Bytes → ℕ
from_be_bytes_onto n [] = n
from_be_bytes_onto n (b ∷ bytes) = from_be_bytes_onto (n * 256 + b) bytes

abbrev pub from_be_bytes : Bytes → ℕ
from_be_bytes bytes = from_be_bytes_onto 0 bytes

unfoldable pub calldata : List ℕ → Bytes
unfolding be_bytes
calldata inputs = flat_map (λ word. be_bytes 32 word) inputs

-- Two lists of bytes are compared byte by byte.
abbrev pub same_bytes : Bytes → Bytes → Bool
same_bytes [] [] = true
same_bytes [] (b ∷ bs) = false
same_bytes (x ∷ xs) [] = false
same_bytes (x ∷ xs) (b ∷ bs) = x == b && same_bytes xs bs

unfoldable pub call_target : StateReader → Bytes → Bytes
unfolding injects_at_target
call_target reader target = if injects_at_target reader then target else scratch_address

-- The override of one account: its code, and the slots that are set to a value.
pub record AccountOverride : Type 0 where
  pub account : Bytes
  pub code : Bytes
  pub state_diff : Option (List (Bytes × Bytes))

unfoldable pub overrides : StateReader → Bytes → AccountOverride
unfolding bytecode uses_sentinel call_target
overrides reader target = record {
  account = call_target reader target;
  code = bytecode reader;
  state_diff = if uses_sentinel reader then some ((sentinel_slot, sentinel_value) ∷ []) else none;
}

unfoldable pub request : StateReader → Bytes → List ℕ → Bytes × AccountOverride × Bytes
unfolding calldata overrides
request reader target inputs =
    let words = inputs ++ (if uses_sentinel reader then from_be_bytes sentinel_slot ∷ [] else []) in
    (calldata words, overrides reader target, call_target reader target)

unfoldable pub shadows_scratch : StateReader → Bytes → Bool
unfolding injects_at_target
shadows_scratch reader address =
    not (injects_at_target reader) && same_bytes address scratch_address

unfoldable pub shadows_sentinel : StateReader → ℕ → Bool
unfolding uses_sentinel
shadows_sentinel reader word = uses_sentinel reader && word == from_be_bytes sentinel_slot

abbrev pub all_zero : Bytes → Bool
all_zero [] = true
all_zero (b ∷ bytes) = b == 0 && all_zero bytes

unfoldable pub is_reserved_address : Bytes → Bool
is_reserved_address bytes =
    all_zero (take 12 bytes) && ltb (from_be_bytes (drop 12 bytes)) reserved_address_ceiling

unfoldable pub refuses_target : StateReader → Bytes → Option String
unfolding shadows_scratch injects_at_target is_reserved_address
refuses_target reader target =
    if shadows_scratch reader target
    then some "address is where the extractor itself runs"
    else if injects_at_target reader && is_reserved_address target
    then some "address is in the reserved precompile range"
    else none

unfoldable pub row_shadows_override : StateReader → ℕ → Bool
unfolding injects_at_target shadows_sentinel be_bytes shadows_scratch
row_shadows_override reader word =
    if injects_at_target reader
    then shadows_sentinel reader word
    else shadows_scratch reader (drop 12 (be_bytes 32 word))

abbrev pub ignored_marker : String
ignored_marker = "the endpoint ignored the eth_call state override"

abbrev pub sentinel_marker : String
sentinel_marker = "state-override sentinel mismatch"

-- `Vec::pop`: the items before the last one, and the last one
abbrev pub pop : {A : Type 0} → List A → Option (List A × A)
pop [] = none
pop (x ∷ []) = some ([], x)
pop (x ∷ (y ∷ ys)) = elim (pop (y ∷ ys)) [ none ↦ none | some (rest, last) ↦ some (x ∷ rest, last) ]

-- the error for an answer of the wrong length
abbrev pub wrong_length : ℕ → ℕ → ℕ → CollectError
wrong_length got want expected = collect_error (
    append "state-override extractor returned " (
      append (decimal got) (
        append " bytes, expected " (
          append (decimal want)
            (append " (" (append (decimal expected) (append " words): " ignored_marker)))))))

module _ (show_word : Bytes → String) where
  -- the error for an answer without the sentinel; `show_word` prints a value in hex
  abbrev pub wrong_sentinel : Bytes → CollectError
  wrong_sentinel sentinel = collect_error (
      append sentinel_marker (
        append ": read " (
          append (show_word sentinel) (
            append " from the sentinel slot, expected " (
              append (show_word sentinel_value)
                ". The endpoint accepted the eth_call state override and did not apply it, so these values did not come from the extractor")))))

  unfoldable pub decode_response : StateReader → Bytes → ℕ → Outcome CollectError (List Bytes)
  unfolding uses_sentinel chunks
  decode_response reader bytes n_inputs =
      let expected = n_inputs + (if uses_sentinel reader then 1 else 0) in
      let want = min (expected * 32) (2 ^ 64 - 1) in
      let words = chunks 32 bytes in
      if not (length bytes == want)
      then err (wrong_length (length bytes) want expected)
      else if uses_sentinel reader
      then elim (pop words) [
        | none ↦ panic
        | some (rest, sentinel) ↦
            if not (same_bytes sentinel sentinel_value)
            then err (wrong_sentinel sentinel)
            else ok rest
      ]
      else ok words
