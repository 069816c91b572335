-- ===== src/Assets/Tests.antt =====
-- The theorems on assets at concrete accounts: 2 and 4 belong to shard 0, and 3 to shard 1.
use yeeroot.Prelude.{ℕ, ◌+◌, ◌/◌, ◌%◌, ◌≡◌, ◌≢◌, refl, none, some, List, [], ◌∷◌, ◌++◌, arith}
use yeeroot.Storage.{ℕ_key, lookup, total}
use yeeroot.Sharding.ShardNum.{
  shard_num_for, shard_num_for_bytes, get_digits, log2, log2_loop, pow2, mask, low_word,
}
use yeeroot.Sharding.ScaleOut.{get_curr_shard, get_shard_count}
use yeeroot.Relay.{
  assets, OriginExtrinsic, decode_origin, read_asset, read_byte, read_signature,
  read_era_or_immortal, is_signed, version_of,
}
use yeeroot.Relay.Tests.{pad, plain}
use yeeroot.Assets.Keys.{holding, Holding_key, holding_eq, bytes_eq}
use yeeroot.Assets.{
  Assets, done, failed, unknown_target, balance_of, arrive, transfer, relay_transfer, shard_code_of,
}
use yeeroot.Assets.Accounting.{transfer_loses, relay_transfer-conserves}

abbrev two_bytes : ℕ → List ℕ
two_bytes n = n / 256 % 256 ∷ n % 256 ∷ []

abbrev code : List ℕ
code = 0 ∷ 2 ∷ []

abbrev vault : ℕ → Assets
vault n = record {
  balances = (holding code 7 2, some 900) ∷ (holding code 7 4, some 50) ∷ [];
  next_asset_id = 8;
  assets_name = [];
  total_supply = (7, some 950) ∷ [];
  assets_decimals = [];
  assets_issuer = [];
  asset_events = [];
  sharding = record {
    genesis_sharding_count = 2;
    scale_out_observe_blocks = 3;
    current_shard_info = some (record { num = n; count = 2; scale_out = none });
    current_scale_out_phase = none;
    block_number = 7;
    logs = [];
  };
}

shards :
    (get_curr_shard (vault 0).sharding ≡ some 0)
    × (get_shard_count (vault 0).sharding ≡ some 2)
    × (shard_num_for two_bytes 4 2 ≡ some 0)
    × (shard_num_for two_bytes 3 2 ≡ some 1)
unfolding get_curr_shard get_shard_count shard_num_for shard_num_for_bytes get_digits log2 log2_loop
    pow2 mask low_word
shards = (refl, refl, refl, refl)

total-vault : (n : ℕ) → total (vault n).balances ≡ 950
unfolding total
total-vault n = refl

held_by_2 : balance_of (holding code 7 2) (vault 0) ≡ 900
unfolding balance_of lookup holding_eq bytes_eq
held_by_2 = refl

sent_away : (transfer two_bytes (λ a. some a) code 7 2 3 100 (vault 0)).0 ≡ done
unfolding transfer arrive balance_of lookup holding_eq bytes_eq get_curr_shard get_shard_count
    shard_num_for shard_num_for_bytes get_digits log2 log2_loop pow2 mask low_word
sent_away = refl

sent_here : (transfer two_bytes (λ a. some a) code 7 2 4 100 (vault 0)).0 ≡ done
unfolding transfer arrive balance_of lookup holding_eq bytes_eq get_curr_shard get_shard_count
    shard_num_for shard_num_for_bytes get_digits log2 log2_loop pow2 mask low_word
sent_here = refl

-- A signed transfer of 100 of the asset from 2 to 3, and its bytes.
abbrev sent_asset : OriginExtrinsic
sent_asset = record {
  shard = code;
  id = some 7;
  sender = 2;
  signature = pad 64;
  index = 3;
  era = 0;
  dest = 3;
  amount = 100;
}

abbrev asset_bytes : List ℕ
asset_bytes =
    129
    ∷ 255
    ∷ 2
    ∷ (pad 31 ++ (pad 64 ++ (3 ∷ 0 ∷ 8 ∷ 1 ∷ 2 ∷ 0 ∷ 2 ∷ 7 ∷ 255 ∷ 3 ∷ (pad 31 ++ 100 ∷ []))))

asset_read : decode_origin plain assets asset_bytes ≡ some sent_asset
unfolding decode_origin read_asset read_byte read_signature read_era_or_immortal is_signed
    version_of
asset_read = refl

relay_transfer-conserves_example :
    total (transfer two_bytes (λ a. some a) code 7 2 3 100 (vault 0)).1.balances
      + total (relay_transfer plain asset_bytes (vault 1)).1.balances
    ≡ total (vault 0).balances + total (vault 1).balances
relay_transfer-conserves_example =
    relay_transfer-conserves two_bytes (λ a. some a) code 7 2 3 3 100 1 0 2 plain asset_bytes
      sent_asset (vault 0) (vault 1) shards.0 shards.1 shards.3 (ground arith) refl sent_away
      asset_read refl (omega (arith, total-vault 1))

transfer_loses_example :
    let (r, s') = transfer two_bytes (λ a. none) code 7 2 4 100 (vault 0) in
    (r ≡ failed unknown_target) × (total s'.balances + 100 ≡ total (vault 0).balances)
transfer_loses_example =
    transfer_loses two_bytes (λ a. none) code 7 2 4 100 (vault 0) refl (omega arith)
      (omega (arith, held_by_2))

other_holding : holding code 7 2 ≢ holding (shard_code_of two_bytes 2) 8 2
other_holding = ground arith
