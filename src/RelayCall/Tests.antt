-- ===== src/RelayCall/Tests.antt =====
-- The theorem on the relay call at a concrete transfer of 100 from 5 to 8, called by account 6.
use yeeroot.Prelude.{ℕ, ◌+◌, ◌≡◌, refl, some, none, List, [], ◌∷◌, arith}
use yeeroot.Storage.{ℕ_key, lookup, total}
use yeeroot.Sharding.ScaleOut.{Sharding}
use yeeroot.Relay.{
  balance, decode_origin, read_byte, version_of, read_signature, is_signed, read_era_or_immortal,
  read_asset,
}
use yeeroot.Relay.RoundTrip.{
  encode_origin, decode_origin-encode_origin, encode_signature, encode_target,
}
use yeeroot.Relay.Tests.{payment, plain, plain_writers, plain-CodecLaws}
use yeeroot.Balances.State.{held, ok, free_balance, deposit_event}
use yeeroot.Balances.Account.{new_account}
use yeeroot.Balances.Currency.{relay_encoded, relay_transfer, create_if_absent}
use yeeroot.RelayCall.{Ledgers, balance_relayed, transfer}
use yeeroot.RelayCall.Minting.{transfer_mints}

abbrev input : List ℕ
input = encode_origin plain_writers 255 4 0 payment

abbrev quiet : Sharding
quiet = record {
  genesis_sharding_count = 2;
  scale_out_observe_blocks = 3;
  current_shard_info = none;
  current_scale_out_phase = none;
  block_number = 7;
  logs = [];
}

abbrev ledgers : Ledgers
ledgers = record {
  store = record {
    total_issuance = 1000;
    existential_deposit = 10;
    transfer_fee = 5;
    creation_fee = 0;
    transaction_base_fee = 2;
    transaction_byte_fee = 1;
    vesting = [];
    free_balances = (2, some 1000) ∷ [];
    reserved_balances = [];
    locks = [];
    account_nonces = [];
    events = [];
    hooks = [];
    sharding = quiet;
    total_fee = 0;
  };
  holdings = record {
    balances = [];
    next_asset_id = 0;
    assets_name = [];
    total_supply = [];
    assets_decimals = [];
    assets_issuer = [];
    asset_events = [];
    sharding = quiet;
  };
}

input_read : decode_origin plain balance input ≡ some payment
input_read =
    decode_origin-encode_origin plain plain_writers 255 4 0 payment plain-CodecLaws refl refl refl
      refl

went : (transfer plain (some 6) balance input 1 2 3 ledgers).0 ≡ balance_relayed (ok tt)
unfolding transfer relay_encoded relay_transfer create_if_absent new_account deposit_event
    free_balance lookup decode_origin encode_origin encode_signature encode_target read_byte
    version_of read_signature is_signed read_era_or_immortal read_asset
went = refl

ledgers-settled : ledgers.store.total_issuance ≡ held ledgers.store
unfolding held total
ledgers-settled = refl

transfer_mints_example :
    let l' = (transfer plain (some 6) balance input 1 2 3 ledgers).1 in
    l'.store.total_issuance + 100 ≡ held l'.store
transfer_mints_example =
    transfer_mints plain (some 6) input 1 2 3 payment ledgers input_read ledgers-settled
      (omega arith) went
