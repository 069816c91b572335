-- ===== src/Assets.antt =====
-- srml/yee-assets/src/lib.rs: assets that anyone issues, and transfers of them within a shard and
-- across shards. A name or a shard code is a list of bytes, an account is a number, a balance is a
-- `u128` and an asset's id is a `u32`, with their wrap-around written out.
pub mod Keys
pub mod Accounting
mod Tests
use yeeroot.Prelude.{
  ℕ, ◌+◌, ◌-◌, ◌%◌, ◌^◌, Bool, Option, none, some, List, [], ◌∷◌, ◌++◌, ltb, leb, ◌==◌,
  if◌then◌else◌, length, drop, or_default,
}
use yeeroot.Storage.{ℕ_key, StorageMap, lookup, write}
use yeeroot.Sharding.ShardNum.{shard_num_for}
use yeeroot.Sharding.ScaleOut.{Sharding, get_curr_shard, get_shard_count}
use yeeroot.Relay.{RelayTypes, assets, Codec, OriginExtrinsic, decode_origin}
use yeeroot.Assets.Keys.{Holding, holding, Holding_key}

abbrev pub amount_mod : ℕ
amount_mod = 2 ^ 128

abbrev pub max_name_size : ℕ
max_name_size = 16

-- `SHARD_CODE_SIZE` of core/sr-primitives/src/lib.rs.
abbrev pub shard_code_size : ℕ
shard_code_size = 2

pub data AssetEvent : Type 0 where
  issued : List ℕ → ℕ → List ℕ → ℕ → ℕ → ℕ → AssetEvent
  transferred : List ℕ → ℕ → ℕ → ℕ → ℕ → AssetEvent

pub record Assets : Type 0 where
  pub balances : StorageMap Holding ℕ
  pub next_asset_id : ℕ
  pub assets_name : StorageMap ℕ (List ℕ)
  pub total_supply : StorageMap ℕ ℕ
  pub assets_decimals : StorageMap ℕ ℕ
  pub assets_issuer : StorageMap ℕ ℕ
  pub asset_events : List AssetEvent
  pub sharding : Sharding

pub data AssetError : Type 0 where
  name_too_long zero_amount balance_too_low unknown_target invalid_relay : AssetError

-- `panicked` is a failed `expect`.
pub data AssetResult : Type 0 where
  done : AssetResult
  failed : AssetError → AssetResult
  panicked : AssetResult

unfoldable pub balance_of : Holding → Assets → ℕ
balance_of h s = or_default 0 (lookup h s.balances)

-- The last two bytes of the issuer's encoding.
unfoldable pub shard_code_of : (ℕ → List ℕ) → ℕ → List ℕ
shard_code_of encode issuer = drop (length (encode issuer) - shard_code_size) (encode issuer)

unfoldable pub issue_asset : (ℕ → List ℕ) → ℕ → List ℕ → ℕ → ℕ → Assets → Assets
issue_asset encode origin name total decimals s =
    let id = s.next_asset_id in
    let code = shard_code_of encode origin in
    record s {
      next_asset_id = (id + 1) % 2 ^ 32;
      balances = write (holding code id origin) (some total) s.balances;
      total_supply = write id (some total) s.total_supply;
      assets_name = write id (some name) s.assets_name;
      assets_decimals = write id (some decimals) s.assets_decimals;
      assets_issuer = write id (some origin) s.assets_issuer;
      asset_events = s.asset_events ++ issued code id name origin total decimals ∷ [];
    }

-- The call `issue`, from a signed origin.
unfoldable pub issue : (ℕ → List ℕ) → ℕ → List ℕ → ℕ → ℕ → Assets → AssetResult × Assets
issue encode origin name total decimals s =
    if ltb max_name_size (length name)
    then (failed name_too_long, s)
    else (done, issue_asset encode origin name total decimals s)

-- `mutate(.., |balance| *balance += amount)`
unfoldable pub credit : Holding → ℕ → Assets → Assets
credit h amount s = record s {
  balances = write h (some ((balance_of h s + amount) % amount_mod)) s.balances;
}

unfoldable pub debit : Holding → ℕ → Assets → Assets
debit h amount s = record s { balances = write h (some (balance_of h s - amount)) s.balances }

unfoldable pub note_transfer : List ℕ → ℕ → ℕ → ℕ → ℕ → Assets → Assets
note_transfer code id a b amount s = record s {
  asset_events = s.asset_events ++ transferred code id a b amount ∷ [];
}

-- The transfer after the debit, once the target is known: its own shard, the number of shards and
-- the target's shard are read, and the target is credited if it is in this shard.
unfoldable pub arrive :
    Option ℕ → Option ℕ → (ℕ → Option ℕ) → List ℕ → ℕ → ℕ → ℕ → ℕ → Assets → AssetResult × Assets
arrive none c shard_of code id a b amount s = (panicked, s)
arrive (some cn) none shard_of code id a b amount s = (panicked, s)
arrive (some cn) (some c) shard_of code id a b amount s = elim (shard_of c) [
  | none ↦ (panicked, s)
  | some dn ↦ (
    done,
    note_transfer code id a b amount (if cn == dn then credit (holding code id b) amount s else s),
  )
]

-- The call `transfer`, from a signed origin. `resolve` is `T::Lookup::lookup`, which is called when
-- the origin's balance is already written.
unfoldable pub transfer :
    (ℕ → List ℕ) → (ℕ → Option ℕ) → List ℕ → ℕ → ℕ → ℕ → ℕ → Assets → AssetResult × Assets
transfer encode resolve code id origin target amount s =
    let mine = holding code id origin in
    let paid = debit mine amount s in
    if amount == 0
    then (failed zero_amount, s)
    else if ltb (balance_of mine s) amount
    then (failed balance_too_low, s)
    else elim (resolve target) [
      | none ↦ (failed unknown_target, paid)
      | some b ↦
          arrive (get_curr_shard s.sharding) (get_shard_count s.sharding) (shard_num_for encode b)
            code id origin b amount paid
    ]

-- `tx.asset_id().unwrap()`: an extrinsic that is read as one of assets has an id.
unfoldable pub credit_relayed : OriginExtrinsic → Assets → AssetResult × Assets
credit_relayed tx s = elim tx.id [
  | none ↦ (panicked, s)
  | some id ↦ (
    done,
    note_transfer tx.shard id tx.sender tx.dest tx.amount
        (credit (holding tx.shard id tx.dest) tx.amount s),
  )
]

unfoldable pub relay_transfer : Codec → List ℕ → Assets → AssetResult × Assets
relay_transfer codec input s = elim (decode_origin codec assets input) [
  | none ↦ (failed invalid_relay, s)
  | some tx ↦ credit_relayed tx s
]
