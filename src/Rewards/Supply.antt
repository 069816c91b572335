-- ===== src/Rewards/Supply.antt =====
-- srml/yee-pow/src/lib.rs: rewards and the total issuance.
use native.Mathlib.Nat.{div-le_self}
use yeeroot.Prelude.{
  ℕ, ◌+◌, ◌/◌, ◌%◌, ◌≤◌, ◌<◌, ◌≡◌, ◌⊎◌, inl, inr, refl, List, [], ◌∷◌, ◌++◌, some, arith, leb, ◌==◌,
  Bool, true, false, Bool-cases, Option-cases, subst, sym,
}
use yeeroot.Storage.{ℕ_key, lookup}
use yeeroot.Sharding.ScaleOut.{get_curr_shard, get_shard_count}
use yeeroot.Sharding.ShardNum.{shard_num_for}
use yeeroot.Balances.State.{Store, balance_mod, held, free_balance}
use yeeroot.Balances.Account.{drop_positive}
use yeeroot.Balances.Account.Effects.{set_free_balance-issuance}
use yeeroot.Balances.Currency.{
  deposit_creating, make_free_balance_be, take_positive, create_if_absent,
}
use yeeroot.Balances.Currency.Accounting.{create_if_absent-same, free_balance-le-held}
use yeeroot.Balances.Currency.Credits.{deposit_creating-settles}
use yeeroot.Balances.Invariant.Keeps.{IsLive}
use yeeroot.Balances.Invariant.Steps.{deposit_creating-IsLive, drop_positive-IsLive}
use yeeroot.Rewards.{
  RewardCondition, RewardPlan, Pow, reward, reward_target, pay, retained, reward_matured,
  new_reward_plan, on_finalize_plans, on_finalize, reward_block_number,
}
use yeeroot.Rewards.Payments.{deposit_creating-sharding}

-- Money in order: the total issuance is what the accounts hold, and covers the existential deposit,
-- which no stored balance is below.
pub record IsSound (s : Store) : Type 0 where
  pub settled : s.total_issuance ≡ held s
  pub covers : s.existential_deposit ≤ s.total_issuance
  pub live : IsLive s

free_balance-live :
    (who : ℕ) (s : Store)
    → IsLive s
    → (free_balance who s ≡ 0) ⊎ (s.existential_deposit ≤ free_balance who s)
unfolding free_balance
free_balance-live who s live = elim (Option-cases (lookup who s.free_balances)) [
  | inl e ↦ inl (ground (arith, e))
  | inr (v, e) ↦ inr (ground (arith, e, live.live_free who v e))
]

-- In order, a deposit is written without dust.
deposit_creating-issuance :
    (who value : ℕ) (s : Store)
    → IsLive s
    → free_balance who s + value < balance_mod
    → (deposit_creating who value s).1.total_issuance ≡ s.total_issuance
unfolding deposit_creating make_free_balance_be take_positive
deposit_creating-issuance who value s live fits =
    let target : ℕ = free_balance who s + value in
    let ready : Store = create_if_absent who target s in
    ground (
      arith,
      free_balance-live who s live,
      create_if_absent-same who target s,
      set_free_balance-issuance who target ready,
      set_free_balance-issuance who target s,
    )

held-drop_positive : (n : ℕ) (s : Store) → held (drop_positive n s) ≡ held s
unfolding drop_positive held
held-drop_positive n s = refl

deposited-IsSound :
    (who value : ℕ) (s : Store)
    → IsSound s
    → s.total_issuance + value < balance_mod
    → let (imbalance, t) = deposit_creating who value s in
      IsSound (drop_positive imbalance t)
      × ((drop_positive imbalance t).total_issuance ≤ s.total_issuance + value)
unfolding drop_positive
deposited-IsSound who value s sound fits =
    let (imbalance, t) = deposit_creating who value s in
    let room : free_balance who s + value < balance_mod =
      omega (arith, sound.settled, free_balance-le-held who s) in
    let settles = deposit_creating-settles who value s sound.settled sound.covers room in
    let issued = deposit_creating-issuance who value s sound.live room in
    let same = deposit_creating-sharding who value s in
    let small : imbalance ≤ value = ground (arith, settles) in
    (
      record {
        settled = ground (arith, settles, issued, held-drop_positive imbalance t, small);
        covers = ground (arith, issued, same, sound.covers, small);
        live = drop_positive-IsLive imbalance t (deposit_creating-IsLive who value s sound.live);
      },
      omega (arith, issued, small),
    )

-- What plans promise.
abbrev pub planned : List RewardPlan → ℕ
planned [] = 0
planned (x ∷ xs) = x.block_reward + x.fee_reward + planned xs

pay-IsSound :
    (b : Bool) (plan : RewardPlan) (target : ℕ) (p : Pow)
    → IsSound p.store
    → p.store.total_issuance + (plan.block_reward + plan.fee_reward) < balance_mod
    → IsSound (pay b plan target p).store
      × ((pay b plan target p).store.total_issuance
          ≤ p.store.total_issuance + (plan.block_reward + plan.fee_reward))
unfolding pay
pay-IsSound false plan target p sound fits = (sound, omega arith)
pay-IsSound true plan target p sound fits =
    let wrap : (plan.block_reward + plan.fee_reward) % balance_mod
        ≡ plan.block_reward + plan.fee_reward =
      omega arith in
    rw wrap (deposited-IsSound target (plan.block_reward + plan.fee_reward) p.store sound fits)

reward-shape :
    (encode : ℕ → List ℕ) (plan : RewardPlan) (who : ℕ) (condition : RewardCondition) (p q : Pow)
    → reward encode plan who condition p ≡ some q
    → (b : Bool) × (q ≡ pay b plan (reward_target condition plan who) p)
unfolding reward
reward-shape encode plan who condition p q h =
    elim (Option-cases (get_curr_shard p.store.sharding)) [
      | inl e ↦ absurd (ground (arith, e))
      | inr (m, e) ↦ elim (Option-cases (get_shard_count p.store.sharding)) [
        | inl f ↦ absurd (ground (arith, e, f))
        | inr (c, f) ↦ elim (Option-cases (shard_num_for encode plan.coinbase c)) [
          | inl g ↦ absurd (ground (arith, e, f, g))
          | inr (n, g) ↦ (n == m, ground (arith, e, f, g))
        ]
      ]
    ]

reward_matured-IsSound :
    (encode : ℕ → List ℕ) (who : ℕ) (condition : RewardCondition) (until : ℕ) (xs : List RewardPlan)
    (p q : Pow)
    → IsSound p.store
    → p.store.total_issuance + planned xs < balance_mod
    → reward_matured encode who condition until xs p ≡ some q
    → IsSound q.store × (q.store.total_issuance ≤ p.store.total_issuance + planned xs)
unfolding reward_matured
reward_matured-IsSound encode who condition until [] p q sound fits h =
    let same : p ≡ q = ground arith in
    (subst (λ r. IsSound r.store) same sound, ground (arith, same))
reward_matured-IsSound encode who condition until (x ∷ xs) p q sound fits h =
    elim (Bool-cases (leb x.block_number until)) [
      | inl due ↦ elim (Option-cases (reward encode x who condition p)) [
        | inl e ↦ absurd (ground (arith, due, e))
        | inr (r, e) ↦
            let (b, shape) = reward-shape encode x who condition p r e in
            let (paid, bound) =
              pay-IsSound b x (reward_target condition x who) p sound (omega arith) in
            let (done, more) =
              reward_matured-IsSound encode who condition until xs r q
                (subst (λ t. IsSound t.store) (sym shape) paid) (ground (arith, shape, bound))
                (ground (arith, due, e)) in
            (done, ground (arith, shape, bound, more))
      ]
      | inr kept ↦
          let (done, more) =
            reward_matured-IsSound encode who condition until xs p q sound (omega arith)
              (ground (arith, kept)) in
          (done, omega (arith, more))
    ]

planned-append :
    (xs : List RewardPlan) (y : RewardPlan) → planned (xs ++ y ∷ []) ≡ planned xs + planned (y ∷ [])
planned-append [] y = omega arith
planned-append (x ∷ xs) y = omega (arith, planned-append xs y)

-- The end of a block that does not panic keeps money in order, if it was so before: the total
-- issuance is what the accounts hold and covers the existential deposit, and every stored balance is at
-- the existential deposit or above. It creates at most what the plans, the block's reward and its fees
-- promise, if all that and the issuance fit in a balance.
pub on_finalize-IsSound :
    (encode : ℕ → List ℕ) (n : ℕ) (p q : Pow)
    → IsSound p.store
    → p.store.total_issuance + planned p.reward_plans + p.block_reward + p.store.total_fee
      < balance_mod
    → on_finalize encode n p ≡ some q
    → IsSound q.store
      × (q.store.total_issuance
          ≤ p.store.total_issuance + planned p.reward_plans + p.block_reward + p.store.total_fee)
unfolding on_finalize on_finalize_plans new_reward_plan
on_finalize-IsSound encode n p q sound fits h = elim (Option-cases p.current_pow_info) [
  | inl e ↦
      let same : p ≡ q = ground (arith, e) in
      (subst (λ r. IsSound r.store) same sound, ground (arith, same))
  | inr (info, e) ↦ elim (Option-cases (get_shard_count p.store.sharding)) [
    | inl f ↦ absurd (ground (arith, e, f))
    | inr (c, f) ↦
        let new : RewardPlan = new_reward_plan n info c p in
        let all : List RewardPlan = p.reward_plans ++ new ∷ [] in
        let until : ℕ = reward_block_number n p.block_reward_latency in
        let share : p.block_reward / c ≤ p.block_reward = div-le_self p.block_reward c in
        let sum = planned-append p.reward_plans new in
        let (done, more) =
          reward_matured-IsSound encode info.coinbase info.reward_condition until all
            (record p { reward_plans = retained until all }) q sound (omega (arith, sum, share))
            (ground (arith, e, f)) in
        (done, omega (arith, sum, share, more))
  ]
]
