-- ===== src/Partitions/Meaning.antt =====
-- A partition and a request, read dimension by dimension: the specification of `param_sets` and of
-- `partition`.
use mathlib.Core.Path.{fun_ext, subst}
use mathlib.Core.Option
use triodion.Prelude.{
  ℕ, ◌≡◌, ◌≢◌, refl, ap, sym, ◌∙◌, Option, none, some, List, map, flat_map, In, map-In,
}
use triodion.Prelude.Order.{Bytes}
use triodion.Chunks.Number.{NumberChunk, values}
use triodion.Chunks.Binary.{BinaryChunk, items}
use triodion.Partitions.Dim.{
  Dim, block_number, transaction_hash, call_data, address, contract, from_address, to_address, slot,
  topic0, topic1, topic2, topic3,
}
use triodion.Partitions.Types.{Partition, Params}

-- what stands in a dimension
pub data Value : Type 0 where
  number : ℕ → Value
  bytes : Bytes → Value

abbrev pub block_values : List NumberChunk → List Value
block_values cs = map number (flat_map values cs)

abbrev pub binary_values : List BinaryChunk → List Value
binary_values cs = map bytes (flat_map items cs)

-- the values that a partition holds in a dimension
unfoldable pub values_at : Partition → Dim → Option (List Value)
values_at p block_number = Option.map block_values p.block_numbers
values_at p transaction_hash = Option.map binary_values p.transactions
values_at p address = Option.map binary_values p.addresses
values_at p contract = Option.map binary_values p.contracts
values_at p from_address = Option.map binary_values p.from_addresses
values_at p to_address = Option.map binary_values p.to_addresses
values_at p call_data = Option.map binary_values p.call_datas
values_at p slot = Option.map binary_values p.slots
values_at p topic0 = Option.map binary_values p.topic0s
values_at p topic1 = Option.map binary_values p.topic1s
values_at p topic2 = Option.map binary_values p.topic2s
values_at p topic3 = Option.map binary_values p.topic3s

-- the value that a request has in a dimension
unfoldable pub value_at : Params → Dim → Option Value
value_at q block_number = Option.map number q.block_number
value_at q transaction_hash = Option.map bytes q.transaction_hash
value_at q address = Option.map bytes q.address
value_at q contract = Option.map bytes q.contract
value_at q from_address = Option.map bytes q.from_address
value_at q to_address = Option.map bytes q.to_address
value_at q call_data = Option.map bytes q.call_data
value_at q slot = Option.map bytes q.slot
value_at q topic0 = Option.map bytes q.topic0
value_at q topic1 = Option.map bytes q.topic1
value_at q topic2 = Option.map bytes q.topic2
value_at q topic3 = Option.map bytes q.topic3

-- A dimension that the partition does not have is not set, and any other is set to a value of the
-- partition.
abbrev pub Chosen : Option (List Value) → Option Value → Type 0
Chosen none none = Unit
Chosen none (some v) = ⊥
Chosen (some vs) none = ⊥
Chosen (some vs) (some v) = In v vs

-- `q` is one of the requests that `p` asks for.
pub record Asks (p : Partition) (q : Params) : Type 0 where
  pub at_dim : (d : Dim) → Chosen (values_at p d) (value_at q d)
  pub no_range : q.block_range ≡ none

abbrev pub to_number : Option Value → Option ℕ
to_number (some (number n)) = some n
to_number _ = none

abbrev pub to_bytes : Option Value → Option Bytes
to_bytes (some (bytes b)) = some b
to_bytes _ = none

-- a request with another value, or none, in one dimension
unfoldable pub put_at : Dim → Option Value → Params → Params
put_at block_number v q = record q { block_number = to_number v }
put_at transaction_hash v q = record q { transaction_hash = to_bytes v }
put_at address v q = record q { address = to_bytes v }
put_at contract v q = record q { contract = to_bytes v }
put_at from_address v q = record q { from_address = to_bytes v }
put_at to_address v q = record q { to_address = to_bytes v }
put_at call_data v q = record q { call_data = to_bytes v }
put_at slot v q = record q { slot = to_bytes v }
put_at topic0 v q = record q { topic0 = to_bytes v }
put_at topic1 v q = record q { topic1 = to_bytes v }
put_at topic2 v q = record q { topic2 = to_bytes v }
put_at topic3 v q = record q { topic3 = to_bytes v }

pub to_number_lem : (o : Option ℕ) → to_number (Option.map number o) ≡ o
to_number_lem none = refl
to_number_lem (some n) = refl

to_bytes_lem : (o : Option Bytes) → to_bytes (Option.map bytes o) ≡ o
to_bytes_lem none = refl
to_bytes_lem (some b) = refl

pub value_at-put_at_ne :
    (d e : Dim) (v : Option Value) (q : Params) → d ≢ e → value_at (put_at d v q) e ≡ value_at q e
unfolding value_at put_at
value_at-put_at_ne block_number block_number v q ne = absurd (ne refl)
value_at-put_at_ne transaction_hash transaction_hash v q ne = absurd (ne refl)
value_at-put_at_ne address address v q ne = absurd (ne refl)
value_at-put_at_ne contract contract v q ne = absurd (ne refl)
value_at-put_at_ne from_address from_address v q ne = absurd (ne refl)
value_at-put_at_ne to_address to_address v q ne = absurd (ne refl)
value_at-put_at_ne call_data call_data v q ne = absurd (ne refl)
value_at-put_at_ne slot slot v q ne = absurd (ne refl)
value_at-put_at_ne topic0 topic0 v q ne = absurd (ne refl)
value_at-put_at_ne topic1 topic1 v q ne = absurd (ne refl)
value_at-put_at_ne topic2 topic2 v q ne = absurd (ne refl)
value_at-put_at_ne topic3 topic3 v q ne = absurd (ne refl)
value_at-put_at_ne _ _ v q ne = refl

pub value_at-put_at-none : (d : Dim) (q : Params) → value_at (put_at d none q) d ≡ none
unfolding value_at put_at
value_at-put_at-none block_number q = refl
value_at-put_at-none _ q = refl

pub put_at-put_at :
    (d : Dim) (v w : Option Value) (q : Params) → put_at d v (put_at d w q) ≡ put_at d v q
unfolding put_at
put_at-put_at block_number v w q = refl
put_at-put_at _ v w q = refl

pub block_range-put_at :
    (d : Dim) (v : Option Value) (q : Params) → (put_at d v q).block_range ≡ q.block_range
unfolding put_at
block_range-put_at block_number v q = refl
block_range-put_at _ v q = refl

pub put_at-value_at : (d : Dim) (q : Params) → put_at d (value_at q d) q ≡ q
unfolding value_at put_at
put_at-value_at block_number q =
    ap (λ x. record q { block_number = x }) (to_number_lem q.block_number)
put_at-value_at transaction_hash q =
    ap (λ x. record q { transaction_hash = x }) (to_bytes_lem q.transaction_hash)
put_at-value_at address q = ap (λ x. record q { address = x }) (to_bytes_lem q.address)
put_at-value_at contract q = ap (λ x. record q { contract = x }) (to_bytes_lem q.contract)
put_at-value_at from_address q =
    ap (λ x. record q { from_address = x }) (to_bytes_lem q.from_address)
put_at-value_at to_address q = ap (λ x. record q { to_address = x }) (to_bytes_lem q.to_address)
put_at-value_at call_data q = ap (λ x. record q { call_data = x }) (to_bytes_lem q.call_data)
put_at-value_at slot q = ap (λ x. record q { slot = x }) (to_bytes_lem q.slot)
put_at-value_at topic0 q = ap (λ x. record q { topic0 = x }) (to_bytes_lem q.topic0)
put_at-value_at topic1 q = ap (λ x. record q { topic1 = x }) (to_bytes_lem q.topic1)
put_at-value_at topic2 q = ap (λ x. record q { topic2 = x }) (to_bytes_lem q.topic2)
put_at-value_at topic3 q = ap (λ x. record q { topic3 = x }) (to_bytes_lem q.topic3)

-- a value of the kind of its dimension
abbrev pub Suits : Dim → Value → Type 0
Suits d v = (q : Params) → value_at (put_at d (some v) q) d ≡ some v

number-Suits : (vs : List ℕ) (v : Value) → In v (map number vs) → Suits block_number v
unfolding value_at put_at
number-Suits vs v h = let (n, k, e) = map-In number v vs h in rw e (λ q. refl)

-- a request from its values and its block range
rebuild : (Dim → Option Value) → Option (ℕ × ℕ) → Params
rebuild at range = record {
  block_number = to_number (at block_number);
  block_range = range;
  transaction_hash = to_bytes (at transaction_hash);
  address = to_bytes (at address);
  contract = to_bytes (at contract);
  from_address = to_bytes (at from_address);
  to_address = to_bytes (at to_address);
  call_data = to_bytes (at call_data);
  slot = to_bytes (at slot);
  topic0 = to_bytes (at topic0);
  topic1 = to_bytes (at topic1);
  topic2 = to_bytes (at topic2);
  topic3 = to_bytes (at topic3);
}

rebuild_lem : (q : Params) → rebuild (value_at q) q.block_range ≡ q
unfolding rebuild value_at
rebuild_lem q = λ i. record {
  block_number = to_number_lem q.block_number i;
  block_range = q.block_range;
  transaction_hash = to_bytes_lem q.transaction_hash i;
  address = to_bytes_lem q.address i;
  contract = to_bytes_lem q.contract i;
  from_address = to_bytes_lem q.from_address i;
  to_address = to_bytes_lem q.to_address i;
  call_data = to_bytes_lem q.call_data i;
  slot = to_bytes_lem q.slot i;
  topic0 = to_bytes_lem q.topic0 i;
  topic1 = to_bytes_lem q.topic1 i;
  topic2 = to_bytes_lem q.topic2 i;
  topic3 = to_bytes_lem q.topic3 i;
}

-- Two requests with the same values and the same range are equal.
pub Params_ext :
    (q r : Params)
    → ((d : Dim) → value_at q d ≡ value_at r d)
    → q.block_range ≡ r.block_range
    → q ≡ r
Params_ext q r same range =
    sym (rebuild_lem q)
    ∙ ap (λ at. rebuild at q.block_range) (fun_ext same)
    ∙ ap (rebuild (value_at r)) range
    ∙ rebuild_lem r

pub Dim-discrete : Discrete Dim
Dim-discrete = hlevel

pub map-some :
    {A B : Type 0} (f : A → B) (o : Option A) {b : B}
    → Option.map f o ≡ some b
    → (a : A) × (o ≡ some a) × (b ≡ f a)
map-some f none e = cc
map-some f (some a) e = (a, refl, cc)

bytes-Suits :
    (d : Dim) (chunks : Option (List BinaryChunk)) {vs : List Value}
    → Option.map binary_values chunks ≡ some vs
    → (v : Value) → In v vs
    → ((b : Bytes) → Suits d (bytes b))
    → Suits d v
bytes-Suits d chunks e v h suits =
    let (cs, found, same) = map-some binary_values chunks e in
    let (b, k, is_b) = map-In bytes v (flat_map items cs) (subst (In v) same h) in
    subst (Suits d) (sym is_b) (suits b)

-- What stands in a dimension of a partition suits the dimension.
pub values_at-Suits :
    (p : Partition) (d : Dim) {vs : List Value} (v : Value)
    → values_at p d ≡ some vs
    → In v vs
    → Suits d v
unfolding values_at value_at put_at
values_at-Suits p block_number v e h =
    let (cs, found, same) = map-some block_values p.block_numbers e in
    number-Suits (flat_map values cs) v (subst (In v) same h)
values_at-Suits p transaction_hash v e h =
    bytes-Suits transaction_hash p.transactions e v h (λ b q. refl)
values_at-Suits p address v e h = bytes-Suits address p.addresses e v h (λ b q. refl)
values_at-Suits p contract v e h = bytes-Suits contract p.contracts e v h (λ b q. refl)
values_at-Suits p from_address v e h = bytes-Suits from_address p.from_addresses e v h (λ b q. refl)
values_at-Suits p to_address v e h = bytes-Suits to_address p.to_addresses e v h (λ b q. refl)
values_at-Suits p call_data v e h = bytes-Suits call_data p.call_datas e v h (λ b q. refl)
values_at-Suits p slot v e h = bytes-Suits slot p.slots e v h (λ b q. refl)
values_at-Suits p topic0 v e h = bytes-Suits topic0 p.topic0s e v h (λ b q. refl)
values_at-Suits p topic1 v e h = bytes-Suits topic1 p.topic1s e v h (λ b q. refl)
values_at-Suits p topic2 v e h = bytes-Suits topic2 p.topic2s e v h (λ b q. refl)
values_at-Suits p topic3 v e h = bytes-Suits topic3 p.topic3s e v h (λ b q. refl)
