-- ===== src/Batch/NativePlan.antt =====
-- What one native storage request of crates/freeze/src/types/state_override.rs holds.
use mathlib.Core.List.{Perm, perm_middle, append_assoc, append-nil}
use mathlib.Core.Path.{subst}
use mathlib.Core.List.Perm as P
use triodion.Prelude.{
  ℕ, ◌+◌, ◌≤◌, ◌<◌, ◌≡◌, refl, sym, ap, ◌⊎◌, inl, inr, Bool, true, false, not, ◌&&◌, List, [], ◌∷◌,
  ◌++◌, map, length, flat_map, concat, concat-append, All, All-append, ltb, ◌==◌, ==_iff,
  if◌then◌else◌, Bool-cases, arith,
}
use triodion.Batch.Grouping.{Groups, grouped, push_entry}
use triodion.Batch.GroupingRows.{push_entry-Perm, push_entry-Keyed, Keyed}
use triodion.Batch.Native.{
  Item, native_storage_max_slots, is_empty, by_block, pack, plan_native_chunks,
}

module _ {R : Type 0} where
  abbrev pub slots : List (Item R) → ℕ
  slots [] = 0
  slots (item ∷ items) = length item.rows + slots items

  slots-append : (xs ys : List (Item R)) → slots (xs ++ ys) ≡ slots xs + slots ys
  slots-append [] ys = omega arith
  slots-append (x ∷ xs) ys = omega (arith, slots-append xs ys)

  abbrev SameBlock : ℕ → Item R → Type 0
  SameBlock block item = item.block ≡ block

  -- Items of one block, for at most as many slots as a request may name, or one item.
  abbrev pub Fits : List (Item R) → Type 0
  Fits group =
      ((block : ℕ) × All (SameBlock block) group)
      × ((slots group ≤ native_storage_max_slots) ⊎ (length group ≡ 1))
      × (0 < length group)

  -- the group that is open
  abbrev Open : ℕ → List (Item R) → ℕ → Type 0
  Open block current budget =
      All (SameBlock block) current × (budget ≡ slots current) × (budget ≤ native_storage_max_slots)

  close-Fits :
      (block budget : ℕ) (current : List (Item R))
      → Open block current budget
      → All Fits (if is_empty current then [] else current ∷ [])
  close-Fits block budget [] h = tt
  close-Fits block budget (item ∷ current) (own, e, small) =
      (((block, own), inl (omega arith), omega arith), tt)

  full-Fits :
      (block budget n : ℕ) (current : List (Item R))
      → (not (is_empty current) && ltb native_storage_max_slots (budget + n)) ≡ true
      → Open block current budget
      → Fits current
  full-Fits block budget n [] full h = absurd (ground arith)
  full-Fits block budget n (item ∷ current) full (own, e, small) =
      ((block, own), inl (omega arith), omega arith)

  room_small :
      (budget n : ℕ) (current : List (Item R))
      → ltb native_storage_max_slots n ≡ false
      → (not (is_empty current) && ltb native_storage_max_slots (budget + n)) ≡ false
      → budget ≡ slots current
      → budget + n ≤ native_storage_max_slots
  room_small budget n [] fits room e = ground arith
  room_small budget n (item ∷ current) fits room e = ground arith

  pack-Fits :
      (block : ℕ) (items current : List (Item R)) (budget : ℕ)
      → All (SameBlock block) items
      → Open block current budget
      → All Fits (pack items current budget)
  unfolding pack
  pack-Fits block [] current budget own h = close-Fits block budget current h
  pack-Fits block (item ∷ items) current budget (mine, own) (there, e, small) =
      let n : ℕ = length item.rows in
      elim (Bool-cases (ltb native_storage_max_slots n)) [
        | inl large ↦ rw (large) (
          ((block, (mine, tt)), inr refl, omega arith),
          pack-Fits block items current budget own (there, e, small),
        )
        | inr fits ↦
            elim (Bool-cases
              (not (is_empty current) && ltb native_storage_max_slots (budget + n))) [
                | inl full ↦
                    rw (fits, full)
                      (
                        full-Fits block budget n current full (there, e, small),
                        pack-Fits block items (item ∷ []) n own
                            ((mine, tt), omega arith, ground arith),
                      )
                | inr room ↦
                    rw (fits, room)
                      (pack-Fits block items (current ++ (item ∷ [])) (budget + n) own (
                        All-append (SameBlock block) current (item ∷ []) there (mine, tt),
                        omega (arith, slots-append current (item ∷ [])),
                        room_small budget n current fits room e,
                      ))
              ]
      ]

  pack-Perm :
      (items current : List (Item R)) (budget : ℕ)
      → Perm (concat (pack items current budget)) (current ++ items)
  unfolding pack
  pack-Perm [] [] budget = P.refl []
  pack-Perm [] (item ∷ current) budget = P.refl _
  pack-Perm (item ∷ items) current budget =
      let n : ℕ = length item.rows in
      elim (Bool-cases (ltb native_storage_max_slots n)) [
        | inl large ↦ rw (large) (
            P.trans (P.cons item (pack-Perm items current budget))
              (P.symm (perm_middle current items)))
        | inr fits ↦
            elim (Bool-cases
              (not (is_empty current) && ltb native_storage_max_slots (budget + n))) [
                | inl full ↦ rw (fits, full) (P.append_left current (pack-Perm items (item ∷ []) n))
                | inr room ↦
                    rw (fits, room, sym (append_assoc current (item ∷ []) items))
                      (pack-Perm items (current ++ (item ∷ [])) (budget + n))
              ]
      ]

  by_block-Perm :
      (work : List (Item R)) (groups : Groups ℕ (Item R))
      → Perm (grouped (by_block work groups)) (work ++ grouped groups)
  unfolding by_block
  by_block-Perm [] groups = P.refl _
  by_block-Perm (item ∷ work) groups =
      P.trans
        (by_block-Perm work (push_entry (λ a b. a == b) (λ a b. ltb a b) item.block item groups))
        (P.trans
          (P.append_left work
            (push_entry-Perm (λ a b. a == b) (λ a b. ltb a b) item.block item groups))
          (perm_middle work (grouped groups)))

  by_block-Keyed :
      (work : List (Item R)) (groups : Groups ℕ (Item R))
      → Keyed SameBlock groups
      → Keyed SameBlock (by_block work groups)
  unfolding by_block
  by_block-Keyed [] groups h = h
  by_block-Keyed (item ∷ work) groups h = by_block-Keyed work _ (
      push_entry-Keyed (λ a b. a == b) (λ a b. ltb a b) SameBlock
        (λ k key e a q. omega (arith, (==_iff k key).0 e)) item.block item groups refl h)

  packed-Perm :
      (groups : Groups ℕ (Item R))
      → Perm (concat (flat_map (λ (block, items). pack items [] 0) groups)) (grouped groups)
  packed-Perm [] = P.refl []
  packed-Perm ((block, items) ∷ groups) =
      rw (concat-append (pack items [] 0) (flat_map (λ (block, items). pack items [] 0) groups))
        (P.append (pack-Perm items [] 0) (packed-Perm groups))

  packed-Fits :
      (groups : Groups ℕ (Item R))
      → Keyed SameBlock groups
      → All Fits (flat_map (λ (block, items). pack items [] 0) groups)
  packed-Fits [] h = tt
  packed-Fits ((block, items) ∷ groups) ((pos, own), h) =
      All-append Fits (pack items [] 0) _ (pack-Fits block items [] 0 own (tt, refl, omega arith))
        (packed-Fits groups h)

  concat-singles : (work : List (Item R)) → concat (map (λ item. item ∷ []) work) ≡ work
  concat-singles [] = refl
  concat-singles (item ∷ work) = ap (◌∷◌ item) (concat-singles work)

  singles-Fits : (work : List (Item R)) → All Fits (map (λ item. item ∷ []) work)
  singles-Fits [] = tt
  singles-Fits (item ∷ work) =
      (((item.block, (refl, tt)), inr refl, omega arith), singles-Fits work)

  -- The plan gives every chunk of work to exactly one request. A request has at least one chunk, all its
  -- chunks are of one block, and it names at most 1024 slots or holds a single chunk.
  pub plan_native_chunks-Fits :
      (work : List (Item R)) (merge : Bool)
      → Perm (concat (plan_native_chunks work merge)) work
        × All Fits (plan_native_chunks work merge)
  unfolding plan_native_chunks
  plan_native_chunks-Fits work false = (rw (concat-singles work) (P.refl work), singles-Fits work)
  plan_native_chunks-Fits work true =
      let all : Perm (grouped (by_block work [])) (work ++ []) = by_block-Perm work [] in
      (
        P.trans (packed-Perm (by_block work []))
            (subst (λ xs. Perm (grouped (by_block work [])) xs) (append-nil work) all),
        packed-Fits (by_block work []) (by_block-Keyed work [] tt),
      )
