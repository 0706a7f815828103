-- ===== src/Batch/Native.antt =====
-- `plan_native_chunks` of crates/freeze/src/types/state_override.rs: which chunks of storage reads go into
-- one `eth_getStorageValues` request.
use triodion.Prelude.{
  ℕ, ◌+◌, Bool, true, false, not, ◌&&◌, List, [], ◌∷◌, ◌++◌, map, length, flat_map, ltb, ◌==◌,
  if◌then◌else◌,
}
use triodion.Prelude.Order.{Bytes}
use triodion.Batch.Grouping.{Groups, push_entry}

-- the rows of one contract at one block
pub record Item (P : Type 0) : Type 0 where
  pub block : ℕ
  pub target : Bytes
  pub rows : List P

abbrev pub native_storage_max_slots : ℕ
native_storage_max_slots = 1024

abbrev pub is_empty : {A : Type 0} → List A → Bool
is_empty [] = true
is_empty (x ∷ xs) = false

module _ {P : Type 0} where
  -- the map of the items by block
  unfoldable pub by_block : List (Item P) → Groups ℕ (Item P) → Groups ℕ (Item P)
  by_block [] groups = groups
  by_block (item ∷ work) groups =
      by_block work (push_entry (λ a b. a == b) (λ a b. ltb a b) item.block item groups)

  -- the inner loop: the items of one block are left, and `current` is the open group
  unfoldable pub pack : List (Item P) → List (Item P) → ℕ → List (List (Item P))
  pack [] current budget = if is_empty current then [] else current ∷ []
  pack (item ∷ items) current budget =
      let n = length item.rows in
      let alone = pack items current budget in
      let fresh = pack items (item ∷ []) n in
      let joined = pack items (current ++ (item ∷ [])) (budget + n) in
      if ltb native_storage_max_slots n
      then (item ∷ []) ∷ alone
      else if not (is_empty current) && ltb native_storage_max_slots (budget + n)
      then current ∷ fresh
      else joined

  unfoldable pub plan_native_chunks : List (Item P) → Bool → List (List (Item P))
  unfolding by_block pack
  plan_native_chunks work merge =
      if not merge
      then map (λ item. item ∷ []) work
      else flat_map (λ (block, items). pack items [] 0) (by_block work [])
