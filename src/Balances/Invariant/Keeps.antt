-- ===== src/Balances/Invariant/Keeps.antt =====
-- srml/yee-balances/src/lib.rs: the invariant on stored balances, and the operations that write
-- them directly.
use yeeroot.Prelude.{ℕ, ◌≤◌, ◌≡◌, some, arith}
use yeeroot.Storage.{ℕ_key, lookup}
use yeeroot.Balances.State.{Store}
use yeeroot.Balances.Account.{set_free_balance, set_reserved_balance}
use yeeroot.Balances.Account.Effects.{
  SameConfig, lookup-set_free_balance, lookup-set_reserved_balance, set_free_balance-reserved,
  set_reserved_balance-free, set_free_balance-SameConfig, set_reserved_balance-SameConfig,
}

-- Every balance that is stored is at least the existential deposit.
pub record IsLive (s : Store) : Type 0 where
  pub live_free : (j v : ℕ) → lookup j s.free_balances ≡ some v → s.existential_deposit ≤ v
  pub live_reserved : (j v : ℕ) → lookup j s.reserved_balances ≡ some v → s.existential_deposit ≤ v

pub IsLive-same :
    (s t : Store)
    → t.free_balances ≡ s.free_balances
    → t.reserved_balances ≡ s.reserved_balances
    → t.existential_deposit ≡ s.existential_deposit
    → IsLive s
    → IsLive t
IsLive-same s t f r d live = record {
  live_free = λ j v h. ground (arith, live.live_free j v);
  live_reserved = λ j v h. ground (arith, live.live_reserved j v);
}

pub set_free_balance-IsLive :
    (who balance : ℕ) (s : Store) → IsLive s → IsLive (set_free_balance who balance s).0
set_free_balance-IsLive who balance s live =
    let config : SameConfig s (set_free_balance who balance s).0 =
      set_free_balance-SameConfig who balance s in
    record {
      live_free = λ j v h.
          ground (arith, config, live.live_free j v, lookup-set_free_balance who balance s j);
      live_reserved = λ j v h.
          ground (arith, config, live.live_reserved j v, set_free_balance-reserved who balance s);
    }

pub set_reserved_balance-IsLive :
    (who balance : ℕ) (s : Store) → IsLive s → IsLive (set_reserved_balance who balance s).0
set_reserved_balance-IsLive who balance s live =
    let config : SameConfig s (set_reserved_balance who balance s).0 =
      set_reserved_balance-SameConfig who balance s in
    record {
      live_free = λ j v h.
          ground (arith, config, live.live_free j v, set_reserved_balance-free who balance s);
      live_reserved = λ j v h.
          ground
            (arith, config, live.live_reserved j v, lookup-set_reserved_balance who balance s j);
    }
