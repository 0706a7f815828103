-- ===== src/Partitions/Rounds.antt =====
-- One round of `param_sets` over a dimension that the partition has.
use mathlib.Core.Option
use mathlib.Core.List.{map-append}
use triodion.Prelude.{◌≡◌, refl, Option, some, List, [], ◌∷◌, map, flat_map, false}
use triodion.Prelude.Outcome.{ok}
use triodion.Prelude.Order.{Bytes}
use triodion.Chunks.Number.{values}
use triodion.Chunks.Binary.{BinaryChunk, items}
use triodion.Partitions.Dim.{
  Dim, block_number, transaction_hash, call_data, address, contract, from_address, to_address, slot,
  topic0, topic1, topic2, topic3,
}
use triodion.Partitions.Types.{Partition, Params}
use triodion.Partitions.Requests.{parametrize, each_value, param_step}
use triodion.Partitions.Meaning.{
  Value, number, bytes, block_values, binary_values, values_at, put_at, map-some,
}

-- the requests of one round: each request with each value
abbrev pub with_values : Dim → List Value → List Params → List Params
with_values d vs = flat_map (λ q. map (λ v. put_at d (some v) q) vs)

module _ {C V : Type 0} (values_of : C → List V) (with_value : Params → V → Params) (d : Dim)
    (inject : V → Value)
    (h : (q : Params) (v : V) → with_value q v ≡ put_at d (some (inject v)) q) where
  map_inject :
      (q : Params) (vs : List V)
      → map (with_value q) vs ≡ map (λ v. put_at d (some v) q) (map inject vs)
  map_inject q [] = refl
  map_inject q (v ∷ vs) = cc (h q v, map_inject q vs)

  each_value_lem :
      (cs : List C) (q : Params)
      → each_value values_of with_value cs q
        ≡ map (λ v. put_at d (some v) q) (map inject (flat_map values_of cs))
  each_value_lem [] q = refl
  each_value_lem (c ∷ cs) q = simp (map_inject q (values_of c), each_value_lem cs q, map-append)

  parametrize_lem :
      (cs : List C) (outputs : List Params)
      → parametrize values_of with_value outputs (some cs)
        ≡ ok (with_values d (map inject (flat_map values_of cs)) outputs)
  unfolding parametrize
  parametrize_lem cs [] = refl
  parametrize_lem cs (q ∷ outputs) = rw (parametrize_lem cs outputs, each_value_lem cs q)

binary_step :
    (d : Dim) (with_value : Params → Bytes → Params)
    → ((q : Params) (b : Bytes) → with_value q b ≡ put_at d (some (bytes b)) q)
    → (chunks : Option (List BinaryChunk)) (vs : List Value) (outputs : List Params)
    → Option.map binary_values chunks ≡ some vs
    → parametrize items with_value outputs chunks ≡ ok (with_values d vs outputs)
binary_step d with_value h chunks vs outputs e =
    let (cs, found, same) = map-some binary_values chunks e in
    rw (found, same) (parametrize_lem items with_value d bytes h cs outputs)

-- One round over a dimension that the partition has gives each request each value.
pub param_step_lem :
    (p : Partition) (d : Dim) (vs : List Value) (outputs : List Params)
    → values_at p d ≡ some vs
    → param_step p false d outputs ≡ ok (with_values d vs outputs)
unfolding param_step values_at put_at
param_step_lem p block_number vs outputs e =
    let (cs, found, same) = map-some block_values p.block_numbers e in
    rw (found, same)
      (parametrize_lem values (λ q v. record q { block_number = some v }) block_number number
        (λ q v. refl) cs outputs)
param_step_lem p transaction_hash vs outputs e =
    binary_step transaction_hash (λ q v. record q { transaction_hash = some v }) (λ q b. refl)
      p.transactions vs outputs e
param_step_lem p address vs outputs e =
    binary_step address (λ q v. record q { address = some v }) (λ q b. refl) p.addresses vs outputs
      e
param_step_lem p contract vs outputs e =
    binary_step contract (λ q v. record q { contract = some v }) (λ q b. refl) p.contracts vs
      outputs e
param_step_lem p from_address vs outputs e =
    binary_step from_address (λ q v. record q { from_address = some v }) (λ q b. refl)
      p.from_addresses vs outputs e
param_step_lem p to_address vs outputs e =
    binary_step to_address (λ q v. record q { to_address = some v }) (λ q b. refl) p.to_addresses vs
      outputs e
param_step_lem p call_data vs outputs e =
    binary_step call_data (λ q v. record q { call_data = some v }) (λ q b. refl) p.call_datas vs
      outputs e
param_step_lem p slot vs outputs e =
    binary_step slot (λ q v. record q { slot = some v }) (λ q b. refl) p.slots vs outputs e
param_step_lem p topic0 vs outputs e =
    binary_step topic0 (λ q v. record q { topic0 = some v }) (λ q b. refl) p.topic0s vs outputs e
param_step_lem p topic1 vs outputs e =
    binary_step topic1 (λ q v. record q { topic1 = some v }) (λ q b. refl) p.topic1s vs outputs e
param_step_lem p topic2 vs outputs e =
    binary_step topic2 (λ q v. record q { topic2 = some v }) (λ q b. refl) p.topic2s vs outputs e
param_step_lem p topic3 vs outputs e =
    binary_step topic3 (λ q v. record q { topic3 = some v }) (λ q b. refl) p.topic3s vs outputs e
