-- ===== src/Partitions/Dim.antt =====
-- `Dim` of crates/freeze/src/types/partitions.rs: the dimensions and their names.
use triodion.Prelude.{
  String, ◌≡◌, refl, sym, ap, ◌∙◌, ◌↔◌, inl, inr, Bool-cases, List, [], ◌∷◌, if◌then◌else◌,
}
use triodion.Prelude.Outcome.{Outcome, ok, err, ok_inj}
use triodion.Prelude.Text.{str_eq, eq_iff}
use triodion.Errors.{ParseError, parse_error}

pub data Dim : Type 0 where
  block_number transaction_hash call_data address contract from_address to_address slot : Dim
  topic0 topic1 topic2 topic3 : Dim

unfoldable pub all_dims : List Dim
all_dims =
    block_number ∷ transaction_hash ∷ call_data ∷ address ∷ contract ∷ from_address ∷ to_address
    ∷ slot ∷ topic0 ∷ topic1 ∷ topic2 ∷ topic3 ∷ []

unfoldable pub plural_name : Dim → String
plural_name block_number = "blocks"
plural_name transaction_hash = "transactions"
plural_name call_data = "call_datas"
plural_name address = "addresses"
plural_name contract = "contracts"
plural_name from_address = "from_addresses"
plural_name to_address = "to_addresses"
plural_name slot = "slots"
plural_name topic0 = "topic0s"
plural_name topic1 = "topic1s"
plural_name topic2 = "topic2s"
plural_name topic3 = "topic3s"

-- `impl FromStr for Dim`
unfoldable pub from_str : String → Outcome ParseError Dim
from_str name =
    if str_eq name "block"
    then ok block_number
    else if str_eq name "transaction"
    then ok transaction_hash
    else if str_eq name "call_data"
    then ok call_data
    else if str_eq name "address"
    then ok address
    else if str_eq name "contract"
    then ok contract
    else if str_eq name "from_address"
    then ok from_address
    else if str_eq name "to_address"
    then ok to_address
    else if str_eq name "slot"
    then ok slot
    else if str_eq name "topic0"
    then ok topic0
    else if str_eq name "topic1"
    then ok topic1
    else if str_eq name "topic2"
    then ok topic2
    else if str_eq name "topic3"
    then ok topic3
    else err (parse_error "invalid dim name")

-- `impl Display for Dim`
unfoldable pub fmt : Dim → String
fmt block_number = "block"
fmt transaction_hash = "transaction"
fmt call_data = "call_data"
fmt address = "address"
fmt contract = "contract"
fmt from_address = "from_address"
fmt to_address = "to_address"
fmt slot = "slot"
fmt topic0 = "topic0"
fmt topic1 = "topic1"
fmt topic2 = "topic2"
fmt topic3 = "topic3"

from_str-fmt_self : (d : Dim) → from_str (fmt d) ≡ ok d
unfolding from_str fmt
from_str-fmt_self block_number = refl
from_str-fmt_self _ = refl

one_name :
    (name : String) (d : Dim) (s : String) (x : Dim) (rest : Outcome ParseError Dim)
    → fmt x ≡ s
    → (rest ≡ ok d → name ≡ fmt d)
    → (if str_eq name s then ok x else rest) ≡ ok d
    → name ≡ fmt d
one_name name d s x rest f later e = elim (Bool-cases (str_eq name s)) [
  | inl same ↦ (eq_iff name s).0 same ∙ sym f ∙ ap fmt (ok_inj (rw same at e))
  | inr other ↦ later (rw other at e)
]

from_str_sound : (name : String) (d : Dim) → from_str name ≡ ok d → name ≡ fmt d
unfolding from_str fmt
from_str_sound name d = one_name name d "block" block_number _ refl (
    one_name name d "transaction" transaction_hash _ refl (
      one_name name d "call_data" call_data _ refl (
        one_name name d "address" address _ refl (
          one_name name d "contract" contract _ refl (
            one_name name d "from_address" from_address _ refl (
              one_name name d "to_address" to_address _ refl (
                one_name name d "slot" slot _ refl (
                  one_name name d "topic0" topic0 _ refl (
                    one_name name d "topic1" topic1 _ refl (
                      one_name name d "topic2" topic2 _ refl
                        (one_name name d "topic3" topic3 _ refl (λ e. cc))))))))))))

-- A name is read as a dimension exactly when it is what that dimension prints as.
pub from_str-fmt : (name : String) (d : Dim) → (from_str name ≡ ok d) ↔ (name ≡ fmt d)
from_str-fmt name d = (from_str_sound name d, λ e. rw e (from_str-fmt_self d))
