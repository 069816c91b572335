-- ===== src/Rewards/Payments.antt =====
-- srml/yee-pow/src/lib.rs: that the rewards of a block are paid, and what they pay.
use native.Mathlib.Nat.{one-le-pow}
use yeeroot.Prelude.{
  ℕ, ◌+◌, ◌%◌, ◌^◌, ◌≤◌, ◌<◌, ◌≡◌, ◌≢◌, ◌↔◌, ◌⊎◌, inl, inr, refl, List, [], ◌∷◌, ◌++◌, none, some,
  arith, leb, ◌==◌, length, Bool, true, false, Bool-cases, Option-cases,
}
use yeeroot.Sharding.ShardNum.{shard_num_for}
use yeeroot.Sharding.ShardNum.Value.{be_value, shard_num_for_bytes-eq-value}
use yeeroot.Sharding.ScaleOut.{get_curr_shard, get_shard_count}
use yeeroot.Balances.State.{Store, balance_mod, free_balance}
use yeeroot.Balances.Account.{drop_positive, drop_negative, set_free_balance}
use yeeroot.Balances.Currency.{
  deposit_creating, make_free_balance_be, take_positive, create_if_absent,
}
use yeeroot.Balances.Currency.Accounting.{create_if_absent-same}
use yeeroot.Balances.Account.Effects.{SameConfig, set_free_balance-SameConfig}
use yeeroot.Rewards.{
  RewardCondition, normal, RewardPlan, PowInfo, Pow, reward, reward_target, pay, retained,
  reward_matured, new_reward_plan, on_finalize_plans, on_finalize, check_inherent,
  reward_block_number,
}

-- The inherent of a block with the block's and the shard's data is accepted exactly if it rewards
-- normally and the coinbase belongs to the shard.
pub check_inherent_iff :
    (encode : ℕ → List ℕ) (d : PowInfo) (num count : ℕ)
    → (check_inherent encode (some d) (some (num, count)) ≡ none)
      ↔ ((d.reward_condition ≡ normal) × (shard_num_for encode d.coinbase count ≡ some num))
unfolding check_inherent
check_inherent_iff encode d num count = ground arith

-- Of two shards with the same number of shards at most one pays a plan: in one of them at least,
-- the reward changes nothing.
pub reward_once :
    (encode : ℕ → List ℕ) (plan : RewardPlan) (who m n c : ℕ) (condition : RewardCondition)
    (p q p' q' : Pow)
    → get_curr_shard p.store.sharding ≡ some m
    → get_curr_shard q.store.sharding ≡ some n
    → get_shard_count p.store.sharding ≡ some c
    → get_shard_count q.store.sharding ≡ some c
    → m ≢ n
    → reward encode plan who condition p ≡ some p'
    → reward encode plan who condition q ≡ some q'
    → (p' ≡ p) ⊎ (q' ≡ q)
unfolding reward pay
reward_once encode plan who m n c condition p q p' q' hp hq cp cq ne rp rq =
    elim (Option-cases (shard_num_for encode plan.coinbase c)) [
      | inl e ↦ absurd (ground (arith, e))
      | inr (k, e) ↦ elim (Bool-cases (k == m)) [
        | inl here ↦ inr (ground (arith, e, here))
        | inr elsewhere ↦ inl (ground (arith, e, elsewhere))
      ]
    ]

pub deposit_creating-sharding :
    (who value : ℕ) (s : Store)
    → ((deposit_creating who value s).1.sharding ≡ s.sharding)
      × ((deposit_creating who value s).1.existential_deposit ≡ s.existential_deposit)
unfolding deposit_creating make_free_balance_be take_positive drop_negative
deposit_creating-sharding who value s =
    let target : ℕ = (free_balance who s + value) % balance_mod in
    let ready : Store = create_if_absent who target s in
    let direct : SameConfig s (set_free_balance who target s).0 =
      set_free_balance-SameConfig who target s in
    let made : SameConfig ready (set_free_balance who target ready).0 =
      set_free_balance-SameConfig who target ready in
    ground (arith, direct, made, create_if_absent-same who target s)

pay-sharding :
    (b : Bool) (plan : RewardPlan) (target : ℕ) (p : Pow)
    → (pay b plan target p).store.sharding ≡ p.store.sharding
unfolding pay drop_positive
pay-sharding false plan target p = refl
pay-sharding true plan target p =
    (deposit_creating-sharding target ((plan.block_reward + plan.fee_reward) % balance_mod)
      p.store).0

reward-runs :
    (encode : ℕ → List ℕ) (plan : RewardPlan) (who n d : ℕ) (condition : RewardCondition) (p : Pow)
    → get_curr_shard p.store.sharding ≡ some n
    → get_shard_count p.store.sharding ≡ some (2 ^ d)
    → d < 16
    → 2 ≤ length (encode plan.coinbase)
    → (q : Pow) × (reward encode plan who condition p ≡ some q)
      × (q.store.sharding ≡ p.store.sharding)
unfolding reward shard_num_for
reward-runs encode plan who n d condition p here count small long =
    let num : ℕ = be_value 0 (encode plan.coinbase) % 2 ^ d in
    (
      pay (num == n) plan (reward_target condition plan who) p,
      ground (arith, shard_num_for_bytes-eq-value (encode plan.coinbase) d long small),
      pay-sharding (num == n) plan (reward_target condition plan who) p,
    )

-- The payments of plans whose coinbases have encodings of two bytes at least.
abbrev pub IsPayable : (ℕ → List ℕ) → List RewardPlan → Type 0
IsPayable encode [] = Unit {0}
IsPayable encode (x ∷ xs) = (2 ≤ length (encode x.coinbase)) × IsPayable encode xs

reward_matured-runs :
    (encode : ℕ → List ℕ) (who n d : ℕ) (condition : RewardCondition) (until : ℕ)
    (xs : List RewardPlan) (p : Pow)
    → get_curr_shard p.store.sharding ≡ some n
    → get_shard_count p.store.sharding ≡ some (2 ^ d)
    → d < 16
    → IsPayable encode xs
    → (q : Pow) × (reward_matured encode who condition until xs p ≡ some q)
unfolding reward_matured
reward_matured-runs encode who n d condition until [] p here count small long = (p, refl)
reward_matured-runs encode who n d condition until (x ∷ xs) p here count small long =
    let (r, e, same) = reward-runs encode x who n d condition p here count small long.0 in
    let paid =
      reward_matured-runs encode who n d condition until xs r (rw same here) (rw same count) small
        long.1 in
    let (q, f) = reward_matured-runs encode who n d condition until xs p here count small long.1 in
    elim (Bool-cases (leb x.block_number until)) [
      | inl due ↦ (paid.0, ground (arith, due, e, paid.1))
      | inr kept ↦ (q, ground (arith, kept, f))
    ]

IsPayable-append :
    (encode : ℕ → List ℕ) (xs : List RewardPlan) (y : RewardPlan)
    → IsPayable encode xs
    → 2 ≤ length (encode y.coinbase)
    → IsPayable encode (xs ++ y ∷ [])
IsPayable-append encode [] y h long = (long, tt)
IsPayable-append encode (x ∷ xs) y h long = (h.0, IsPayable-append encode xs y h.1 long)

-- The end of a block does not panic, if the shard is known, the number of shards is a power of two
-- of sixteen bits, and the encodings of the coinbases have two bytes at least.
pub on_finalize-runs :
    (encode : ℕ → List ℕ) (n m d : ℕ) (info : PowInfo) (p : Pow)
    → p.current_pow_info ≡ some info
    → get_curr_shard p.store.sharding ≡ some m
    → get_shard_count p.store.sharding ≡ some (2 ^ d)
    → d < 16
    → IsPayable encode p.reward_plans
    → 2 ≤ length (encode info.coinbase)
    → (q : Pow) × (on_finalize encode n p ≡ some q)
unfolding on_finalize on_finalize_plans new_reward_plan
on_finalize-runs encode n m d info p known here count small plans long =
    let until : ℕ = reward_block_number n p.block_reward_latency in
    let all : List RewardPlan = p.reward_plans ++ new_reward_plan n info (2 ^ d) p ∷ [] in
    let (q, e) =
      reward_matured-runs encode info.coinbase m d info.reward_condition until all
        (record p { reward_plans = retained until all }) here count small
        (IsPayable-append encode p.reward_plans (new_reward_plan n info (2 ^ d) p) plans long) in
    (q, ground (arith, one-le-pow d 2 (omega arith), e))
