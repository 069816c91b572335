-- ===== src/Rewards/Tests.antt =====
-- The theorems on rewards at a concrete chain: shard 0 of two, with a latency of two blocks.
use yeeroot.Prelude.{ℕ, ◌+◌, ◌/◌, ◌%◌, ◌^◌, ◌≤◌, ◌≡◌, refl, none, some, List, [], ◌∷◌, arith}
use yeeroot.Storage.{ℕ_key, lookup, total}
use yeeroot.Sharding.ShardNum.{
  shard_num_for, shard_num_for_bytes, get_digits, log2, log2_loop, pow2, mask, low_word,
}
use yeeroot.Sharding.ScaleOut.{get_curr_shard, get_shard_count}
use yeeroot.Balances.State.{Store, held}
use yeeroot.Rewards.{normal, PowInfo, RewardPlan, Pow, reward, on_finalize}
use yeeroot.Rewards.Payments.{on_finalize-runs}
use yeeroot.Rewards.Supply.{IsSound, on_finalize-IsSound}

abbrev two_bytes : ℕ → List ℕ
two_bytes n = n / 256 % 256 ∷ n % 256 ∷ []

abbrev treasury : ℕ → Store
treasury n = record {
  total_issuance = 1000;
  existential_deposit = 10;
  transfer_fee = 5;
  creation_fee = 0;
  transaction_base_fee = 2;
  transaction_byte_fee = 1;
  vesting = [];
  free_balances = (2, some 1000) ∷ [];
  reserved_balances = [];
  locks = [];
  account_nonces = [];
  events = [];
  hooks = [];
  sharding = record {
    genesis_sharding_count = 2;
    scale_out_observe_blocks = 3;
    current_shard_info = some (record { num = n; count = 2; scale_out = none });
    current_scale_out_phase = none;
    block_number = 7;
    logs = [];
  };
  total_fee = 12;
}

abbrev miner : PowInfo
miner = record { coinbase = 4; reward_condition = normal }

abbrev plan : ℕ → RewardPlan
plan n = record { block_number = n; coinbase = 2; block_reward = 30; fee_reward = 0 }

abbrev chain : ℕ → Pow
chain n = record {
  block_reward = 64;
  block_reward_latency = 2;
  reward_plans = plan 5 ∷ plan 6 ∷ [];
  current_pow_info = some miner;
  reward_events = [];
  store = treasury n;
}

known :
    (n : ℕ)
    → (get_curr_shard (treasury n).sharding ≡ some n)
      × (get_shard_count (treasury n).sharding ≡ some (2 ^ 1))
unfolding get_curr_shard get_shard_count
known n = (refl, refl)

finished : (q : Pow) × (on_finalize two_bytes 7 (chain 0) ≡ some q)
finished =
    on_finalize-runs two_bytes 7 0 1 miner (chain 0) refl (known 0).0 (known 0).1 (omega arith)
      (omega arith, (omega arith, tt)) (omega arith)

on_finalize-runs_example : (q : Pow) × (on_finalize two_bytes 7 (chain 0) ≡ some q)
on_finalize-runs_example =
    on_finalize-runs two_bytes 7 0 1 miner (chain 0) refl (known 0).0 (known 0).1 (omega arith)
      (omega arith, (omega arith, tt)) (omega arith)

treasury-IsSound : IsSound (treasury 0)
unfolding held total lookup
treasury-IsSound = record {
  settled = refl;
  covers = omega arith;
  live = record { live_free = λ j v h. ground arith; live_reserved = λ j v h. ground arith };
}

on_finalize-IsSound_example :
    IsSound finished.0.store × (finished.0.store.total_issuance ≤ 1000 + 60 + 64 + 12)
on_finalize-IsSound_example =
    on_finalize-IsSound two_bytes 7 (chain 0) finished.0 treasury-IsSound (omega arith) finished.1

paid : (n : ℕ) → (q : Pow) × (reward two_bytes (plan 5) 4 normal (chain n) ≡ some q)
unfolding reward get_curr_shard get_shard_count shard_num_for shard_num_for_bytes get_digits log2
    log2_loop pow2 mask low_word
paid n = (_, refl)
