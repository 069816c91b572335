-- ===== src/Rewards/Schedule.antt =====
-- srml/yee-pow/src/lib.rs: when a planned reward is paid.
use yeeroot.Prelude.{
  ℕ, suc, ◌+◌, ◌-◌, ◌≡◌, List, [], ◌∷◌, ◌++◌, some, arith, leb, refl, max, subst, sym, ap, length,
  length-append, Bool, true, false, Option-cases, Bool-cases, inl, inr,
}
use yeeroot.Sharding.ScaleOut.{get_shard_count}
use yeeroot.Rewards.{
  RewardPlan, RewardCondition, PowInfo, Pow, reward, reward_target, pay, retained, reward_matured,
  reward_block_number, new_reward_plan, on_finalize_plans, on_finalize,
}

-- The plans of consecutive blocks, the first of them `n`.
abbrev pub Consecutive : ℕ → List RewardPlan → Type 0
Consecutive n [] = Unit {0}
Consecutive n (x ∷ xs) = (x.block_number ≡ n) × Consecutive (suc n) xs

Consecutive-append :
    (n : ℕ) (xs : List RewardPlan) (y : RewardPlan)
    → Consecutive n xs
    → y.block_number ≡ n + length xs
    → Consecutive n (xs ++ y ∷ [])
Consecutive-append n [] y h e = (omega (arith, e), tt)
Consecutive-append n (x ∷ xs) y h e = (h.0, Consecutive-append (suc n) xs y h.1 (omega (arith, e)))

-- Dropping what falls due by block `u` from the plans of the blocks from `n` on.
retained-Consecutive :
    (u n : ℕ) (xs : List RewardPlan)
    → Consecutive n xs
    → Consecutive (max n (suc u)) (retained u xs)
      × (length (retained u xs) ≡ n + length xs - max n (suc u))
unfolding retained
retained-Consecutive u n [] h = (tt, ground arith)
retained-Consecutive u n (x ∷ xs) (e, rest) =
    let ih = retained-Consecutive u (suc n) xs rest in
    elim (Bool-cases (leb x.block_number u)) [
      | inl d ↦
          let same : max (suc n) (suc u) ≡ max n (suc u) = ground (arith, e, d) in
          rw d (subst (λ m. Consecutive m (retained u xs)) same ih.0, omega (arith, ih.1, same))
      | inr d ↦
          let here : max n (suc u) ≡ n = ground (arith, e, d) in
          let next : max (suc n) (suc u) ≡ suc n = ground (arith, e, d) in
          rw (d, here)
            (
              (e, subst (λ m. Consecutive m (retained u xs)) next ih.0),
              omega (arith, ih.1, next, here),
            )
    ]

pay-plans :
    (b : Bool) (plan : RewardPlan) (target : ℕ) (p : Pow)
    → (pay b plan target p).reward_plans ≡ p.reward_plans
unfolding pay
pay-plans true plan target p = refl
pay-plans false plan target p = refl

reward-plans :
    (encode : ℕ → List ℕ) (plan : RewardPlan) (who : ℕ) (condition : RewardCondition) (p q : Pow)
    → reward encode plan who condition p ≡ some q
    → q.reward_plans ≡ p.reward_plans
unfolding reward
reward-plans encode plan who condition p q h = ground (
  arith,
  pay-plans true plan (reward_target condition plan who) p,
  pay-plans false plan (reward_target condition plan who) p,
)

reward_matured-plans :
    (encode : ℕ → List ℕ) (who : ℕ) (condition : RewardCondition) (until : ℕ) (xs : List RewardPlan)
    (p q : Pow)
    → reward_matured encode who condition until xs p ≡ some q
    → q.reward_plans ≡ p.reward_plans
unfolding reward_matured
reward_matured-plans encode who condition until [] p q h = ground arith
reward_matured-plans encode who condition until (x ∷ xs) p q h =
    elim (Option-cases (reward encode x who condition p)) [
      | inl e ↦ ground (arith, reward_matured-plans encode who condition until xs p q)
      | inr (r, e) ↦ ground (
        arith,
        reward-plans encode x who condition p r e,
        reward_matured-plans encode who condition until xs r q,
        reward_matured-plans encode who condition until xs p q,
      )
    ]

-- The block after which the plans that stay at the end of block `n` begin.
abbrev pub oldest_kept : ℕ → ℕ → ℕ → ℕ
oldest_kept first n latency = max first (suc (reward_block_number n latency))

on_finalize-plans :
    (encode : ℕ → List ℕ) (n : ℕ) (info : PowInfo) (p q : Pow)
    → p.current_pow_info ≡ some info
    → on_finalize encode n p ≡ some q
    → (c : ℕ) × (q.reward_plans
        ≡ retained
            (reward_block_number n p.block_reward_latency)
            (p.reward_plans ++ new_reward_plan n info c p ∷ []))
unfolding on_finalize on_finalize_plans
on_finalize-plans encode n info p q known finished =
    elim (Option-cases (get_shard_count p.store.sharding)) [
      | inl e ↦ absurd (ground (arith, e))
      | inr (c, e) ↦
          let plans : List RewardPlan = p.reward_plans ++ new_reward_plan n info c p ∷ [] in
          let until : ℕ = reward_block_number n p.block_reward_latency in
          (
            c,
            ground (
              arith,
              e,
              reward_matured-plans encode info.coinbase info.reward_condition until plans
                  (record p { reward_plans = retained until plans }) q,
            ),
          )
    ]

-- At the end of block `n` that does not panic, if the plans are those of the blocks from `first` to
-- `n - 1`, the plans that stay are those of the blocks up to `n` that are younger than the latency,
-- each of them once.
pub on_finalize-Consecutive :
    (encode : ℕ → List ℕ) (n first : ℕ) (info : PowInfo) (p q : Pow)
    → p.current_pow_info ≡ some info
    → Consecutive first p.reward_plans
    → first + length p.reward_plans ≡ n
    → on_finalize encode n p ≡ some q
    → Consecutive (oldest_kept first n p.block_reward_latency) q.reward_plans
      × (length q.reward_plans ≡ suc n - oldest_kept first n p.block_reward_latency)
unfolding new_reward_plan
on_finalize-Consecutive encode n first info p q known plans count finished =
    let (c, e) = on_finalize-plans encode n info p q known finished in
    let new : RewardPlan = new_reward_plan n info c p in
    let all : List RewardPlan = p.reward_plans ++ new ∷ [] in
    let (consecutive, size) =
      retained-Consecutive (reward_block_number n p.block_reward_latency) first all
        (Consecutive-append first p.reward_plans new plans (sym count)) in
    (
      subst (Consecutive (oldest_kept first n p.block_reward_latency)) (sym e) consecutive,
      omega (arith, ap length e, size, length-append p.reward_plans (new ∷ []), count),
    )
