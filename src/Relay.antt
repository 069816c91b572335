-- ===== src/Relay.antt =====
-- core/sr-primitives/src/lib.rs: reading a relayed extrinsic, and the extrinsic that it relays, from
-- their bytes. The codec's readers are parameters: each takes bytes and gives a value and the bytes
-- behind it, or nothing. An account or a hash is a number.
pub mod RoundTrip
pub mod Tests
use yeeroot.Prelude.{
  ℕ, ◌/◌, ◌%◌, Bool, true, false, not, Option, none, some, List, [], ◌∷◌, ltb, leb, ◌==◌,
  if◌then◌else◌, length, take, drop,
}

pub data RelayTypes : Type 0 where
  balance assets : RelayTypes

abbrev pub Reader : Type 0 → Type 0
Reader A = List ℕ → Option (A × List ℕ)

-- `Vec<()>`, `Vec<u8>`, the hash, the account, the relay type, the compact numbers and the era.
pub record Codec : Type 0 where
  pub read_len : Reader (Unit {0})
  pub read_bytes : Reader (List ℕ)
  pub read_hash : Reader ℕ
  pub read_account : Reader ℕ
  pub read_relay_type : Reader RelayTypes
  pub read_u32 : Reader ℕ
  pub read_u64 : Reader ℕ
  pub read_u128 : Reader ℕ
  pub read_era : Reader ℕ
  pub blake2 : List ℕ → ℕ

pub record RelayParams : Type 0 where
  pub number : ℕ
  pub hash : ℕ
  pub block_hash : ℕ
  pub parent_hash : ℕ
  pub relay_type : RelayTypes
  pub origin : List ℕ

-- An era of zero is the immortal one.
pub record OriginExtrinsic : Type 0 where
  pub shard : List ℕ
  pub id : Option ℕ
  pub sender : ℕ
  pub signature : List ℕ
  pub index : ℕ
  pub era : ℕ
  pub dest : ℕ
  pub amount : ℕ

abbrev pub min_relay_size : ℕ
min_relay_size = 130

unfoldable pub read_byte : Reader ℕ
read_byte [] = none
read_byte (b ∷ bs) = some (b, bs)

-- A chain of readers, and an early return.
infixl 5 ◌>>=◌ ◌>>◌
abbrev pub ◌>>=◌ : {A B : Type 0} → Option A → (A → Option B) → Option B
◌>>=◌ none f = none
◌>>=◌ (some a) f = f a

abbrev pub ◌>>◌ : {A B : Type 0} → Option A → Option B → Option B
m >> k = m >>= λ _. k

abbrev pub ensure : Bool → Option (Unit {0})
ensure true = some tt
ensure false = none

-- `version & 0b1000_0000 != 0` and `version & 0b0111_1111`, on a byte.
unfoldable pub is_signed : ℕ → Bool
is_signed version = not (version / 128 % 2 == 0)

unfoldable pub version_of : ℕ → ℕ
version_of version = version % 128

unfoldable pub decode_relay : Codec → List ℕ → Option RelayParams
decode_relay c input = do
  ensure (ltb min_relay_size (length input))
  len ← c.read_len input
  version ← read_byte len.1
  ensure (not (is_signed version.0))
  ensure (version_of version.0 == 1)
  mod_index ← read_byte version.1
  func ← read_byte mod_index.1
  relay_type ← c.read_relay_type func.1
  origin ← c.read_bytes relay_type.1
  number ← c.read_u64 origin.1
  block_hash ← c.read_hash number.1
  parent_hash ← c.read_hash block_hash.1
  some (record {
    number = number.0;
    hash = c.blake2 origin.0;
    block_hash = block_hash.0;
    parent_hash = parent_hash.0;
    relay_type = relay_type.0;
    origin = origin.0;
  })

-- The sender, its signature, the index and the era, and the bytes behind them.
abbrev pub Signature : Type 0
Signature = (ℕ × List ℕ) × (ℕ × ℕ)

unfoldable pub read_era_or_immortal : Codec → Reader ℕ
read_era_or_immortal c [] = none
read_era_or_immortal c (b ∷ bs) = if b == 0 then some (0, bs) else c.read_era (b ∷ bs)

unfoldable pub read_signature : Codec → Bool → Reader Signature
read_signature c false input = some (((0, []), (0, 0)), input)
read_signature c true input = do
  address_type ← read_byte input
  sender ← c.read_account address_type.1
  ensure (leb 64 (length sender.1))
  index ← c.read_u64 (drop 64 sender.1)
  era ← read_era_or_immortal c index.1
  some (((sender.0, take 64 sender.1), (index.0, era.0)), era.1)

-- The shard code and the id of an asset.
unfoldable pub read_asset : Codec → RelayTypes → Reader (List ℕ × Option ℕ)
read_asset c balance input = some (([], none), input)
read_asset c assets input = do
  shard ← c.read_bytes input
  id ← c.read_u32 shard.1
  some ((shard.0, some id.0), id.1)

unfoldable pub decode_origin : Codec → RelayTypes → List ℕ → Option OriginExtrinsic
decode_origin c relay_type input = do
  ensure (leb 66 (length input))
  len ← c.read_len input
  version ← read_byte len.1
  ensure (version_of version.0 == 1)
  signed ← read_signature c (is_signed version.0) version.1
  ensure (leb 35 (length signed.1))
  mod_index ← read_byte signed.1
  func ← read_byte mod_index.1
  asset ← read_asset c relay_type func.1
  address_type ← read_byte asset.1
  dest ← c.read_account address_type.1
  amount ← c.read_u128 dest.1
  some (record {
    shard = asset.0.0;
    id = asset.0.1;
    sender = signed.0.0.0;
    signature = signed.0.0.1;
    index = signed.0.1.0;
    era = signed.0.1.1;
    dest = dest.0;
    amount = amount.0;
  })
