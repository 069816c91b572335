-- ===== src/Rewards.antt =====
-- srml/yee-pow/src/lib.rs: the plans of block rewards and their payment after a latency. The balances
-- and the total fee of the block are in the storage of the balances module. The runtime's `Reward` is
-- `()`: the imbalance of a reward is dropped. Block numbers are `u64`.
pub mod Schedule
pub mod Payments
pub mod Supply
mod Tests
use yeeroot.Prelude.{
  ℕ, ◌+◌, ◌-◌, ◌/◌, ◌%◌, Bool, true, false, Option, none, some, List, [], ◌∷◌, ◌++◌, ltb, leb, ◌==◌,
  if◌then◌else◌,
}
use yeeroot.Sharding.ShardNum.{shard_num_for}
use yeeroot.Sharding.ScaleOut.{get_curr_shard, get_shard_count}
use yeeroot.Balances.State.{Store, balance_mod}
use yeeroot.Balances.Account.{drop_positive}
use yeeroot.Balances.Currency.{deposit_creating}

pub data RewardCondition : Type 0 where
  normal slash : RewardCondition

pub record PowInfo : Type 0 where
  pub coinbase : ℕ
  pub reward_condition : RewardCondition

pub record RewardPlan : Type 0 where
  pub block_number : ℕ
  pub coinbase : ℕ
  pub block_reward : ℕ
  pub fee_reward : ℕ

pub record Pow : Type 0 where
  pub block_reward : ℕ
  pub block_reward_latency : ℕ
  pub reward_plans : List RewardPlan
  pub current_pow_info : Option PowInfo
  pub reward_events : List RewardPlan
  pub store : Store

-- The call `set_pow_info`; its first argument is the outcome of `ensure_inherent(origin)`.
unfoldable pub set_pow_info : Bool → PowInfo → Pow → Bool × Pow
set_pow_info inherent info p =
    (inherent, if inherent then record p { current_pow_info = some info } else p)

unfoldable pub on_initialize : Pow → Pow
on_initialize p = record p { store = record p.store { total_fee = 0 } }

unfoldable pub reward_target : RewardCondition → RewardPlan → ℕ → ℕ
reward_target normal plan current_coinbase = plan.coinbase
reward_target slash plan current_coinbase = current_coinbase

-- The payment of one plan, once the two shards are known; only the shard of the plan's coinbase pays.
unfoldable pub pay : Bool → RewardPlan → ℕ → Pow → Pow
pay false plan target p = p
pay true plan target p =
    let (imbalance, s) =
      deposit_creating target ((plan.block_reward + plan.fee_reward) % balance_mod) p.store in
    record p {
      store = drop_positive imbalance s;
      reward_events = p.reward_events ++ record plan { coinbase = target } ∷ [];
    }

-- `none` is the panic of an `expect`.
unfoldable pub reward : (ℕ → List ℕ) → RewardPlan → ℕ → RewardCondition → Pow → Option Pow
reward encode plan current_coinbase condition p = elim (get_curr_shard p.store.sharding) [
  | none ↦ none
  | some shard_num ↦ elim (get_shard_count p.store.sharding) [
    | none ↦ none
    | some shard_count ↦ elim (shard_num_for encode plan.coinbase shard_count) [
      | none ↦ none
      | some n ↦ some (pay (n == shard_num) plan (reward_target condition plan current_coinbase) p)
    ]
  ]
]

-- The plans that stay.
unfoldable pub retained : ℕ → List RewardPlan → List RewardPlan
retained until [] = []
retained until (x ∷ xs) =
    if leb x.block_number until then retained until xs else x ∷ retained until xs

-- The plans that fall due.
unfoldable pub matured : ℕ → List RewardPlan → List RewardPlan
matured until [] = []
matured until (x ∷ xs) = if leb x.block_number until then x ∷ matured until xs else matured until xs

-- The rewards that the closure of `retain` pays, in the order of the plans.
unfoldable pub reward_matured :
    (ℕ → List ℕ) → ℕ → RewardCondition → ℕ → List RewardPlan → Pow → Option Pow
reward_matured encode coinbase condition until [] p = some p
reward_matured encode coinbase condition until (x ∷ xs) p =
    if leb x.block_number until
    then elim (reward encode x coinbase condition p) [
      | none ↦ none
      | some q ↦ reward_matured encode coinbase condition until xs q
    ]
    else reward_matured encode coinbase condition until xs p

unfoldable pub reward_block_number : ℕ → ℕ → ℕ
reward_block_number block_number latency =
    if ltb latency block_number then block_number - latency else 0

unfoldable pub new_reward_plan : ℕ → PowInfo → ℕ → Pow → RewardPlan
new_reward_plan block_number info shard_count p = record {
  block_number = block_number;
  coinbase = info.coinbase;
  block_reward = p.block_reward / shard_count;
  fee_reward = p.store.total_fee;
}

-- The plans at the end of a block, the block's own among them.
unfoldable pub on_finalize_plans : (ℕ → List ℕ) → ℕ → PowInfo → ℕ → Pow → Option Pow
on_finalize_plans encode block_number info shard_count p =
    let plans = p.reward_plans ++ new_reward_plan block_number info shard_count p ∷ [] in
    let until = reward_block_number block_number p.block_reward_latency in
    reward_matured encode info.coinbase info.reward_condition until plans
      (record p { reward_plans = retained until plans })

-- `none` is a panic: no shard is known yet, or the shard count that divides the reward is zero.
unfoldable pub on_finalize : (ℕ → List ℕ) → ℕ → Pow → Option Pow
on_finalize encode block_number p = elim p.current_pow_info [
  | none ↦ some p
  | some info ↦ elim (get_shard_count p.store.sharding) [
    | none ↦ none
    | some shard_count ↦
        if shard_count == 0 then none else on_finalize_plans encode block_number info shard_count p
  ]
]

pub data CheckError : Type 0 where
  bad_condition shard_mismatch panic : CheckError

-- `check_inherent`, on the inherent data that decodes, if any: the block's and the shard's.
unfoldable pub check_inherent : (ℕ → List ℕ) → Option PowInfo → Option (ℕ × ℕ) → Option CheckError
check_inherent encode none shard = none
check_inherent encode (some d) shard = elim d.reward_condition [
  | slash ↦ some bad_condition
  | normal ↦ elim shard [
    | none ↦ none
    | some shard ↦ elim (shard_num_for encode d.coinbase shard.1) [
      | none ↦ some panic
      | some n ↦ if n == shard.0 then none else some shard_mismatch
    ]
  ]
]
