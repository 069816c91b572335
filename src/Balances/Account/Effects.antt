-- ===== src/Balances/Account/Effects.antt =====
-- What setting a balance changes: one entry, and the total issuance by the dust that is dropped.
use yeeroot.Prelude.{ℕ, ◌+◌, ◌-◌, ◌≤◌, ◌≡◌, Option, none, some, arith, ltb, ◌==◌, if◌then◌else◌}
use yeeroot.Storage.{ℕ_key, lookup, write, write-write, lookup-write, total-write, lookup-le-total}
use yeeroot.Balances.State.{Store, free_balance, reserved_balance, held, deposit_event}
use yeeroot.Balances.Account.{
  drop_negative, reap_account, remove_dust, free_balance_zero, on_free_too_low, on_reserved_too_low,
  set_free_balance, set_reserved_balance,
}

-- What is stored for a new balance: nothing, if it is below the existential deposit.
abbrev pub kept : ℕ → ℕ → Option ℕ
kept deposit balance = if ltb balance deposit then none else some balance

-- The dust of a new balance.
abbrev pub dust : ℕ → ℕ → ℕ
dust deposit balance = if ltb balance deposit then balance else 0

-- What no change of a balance touches.
pub record SameConfig (s s' : Store) : Type 0 where
  pub deposit : s'.existential_deposit ≡ s.existential_deposit
  pub fee : s'.transfer_fee ≡ s.transfer_fee
  pub sharding : s'.sharding ≡ s.sharding
  pub vesting : s'.vesting ≡ s.vesting

module _ (who balance : ℕ) (s : Store) where
  pub set_free_balance-free :
      (set_free_balance who balance s).0.free_balances
      ≡ write who (kept s.existential_deposit balance) s.free_balances
  unfolding set_free_balance on_free_too_low reap_account deposit_event free_balance_zero
      remove_dust drop_negative
  set_free_balance-free = ground (arith, write-write who none (some balance) s.free_balances)

  pub set_free_balance-reserved :
      (set_free_balance who balance s).0.reserved_balances ≡ s.reserved_balances
  unfolding set_free_balance on_free_too_low reap_account deposit_event free_balance_zero
      remove_dust drop_negative
  set_free_balance-reserved = ground arith

  pub set_free_balance-issuance :
      (set_free_balance who balance s).0.total_issuance
      ≡ s.total_issuance - dust s.existential_deposit balance
  unfolding set_free_balance on_free_too_low reap_account deposit_event free_balance_zero
      remove_dust drop_negative free_balance
  set_free_balance-issuance = ground (arith, lookup-write who who (some balance) s.free_balances)

  pub set_free_balance-SameConfig : SameConfig s (set_free_balance who balance s).0
  unfolding set_free_balance on_free_too_low reap_account deposit_event free_balance_zero
      remove_dust drop_negative
  set_free_balance-SameConfig = ground arith

  -- The accounting of one change: `c` counts created and `d` destroyed funds that are not yet
  -- squared up with the total issuance.
  pub set_free_balance-settles :
      (c d c' d' : ℕ)
      → s.total_issuance + c ≡ held s + d
      → c' + d + free_balance who s ≡ c + d' + balance
      → dust s.existential_deposit balance ≤ s.total_issuance
      → (set_free_balance who balance s).0.total_issuance + c'
        ≡ held (set_free_balance who balance s).0 + d'
  unfolding held free_balance
  set_free_balance-settles c d c' d' books change room =
      rw (set_free_balance-issuance, set_free_balance-free, set_free_balance-reserved)
        (ground (
          arith,
          total-write who (kept s.existential_deposit balance) s.free_balances,
          lookup-le-total who s.free_balances,
        ))

  pub lookup-set_free_balance :
      (j : ℕ)
      → lookup j (set_free_balance who balance s).0.free_balances
        ≡ (if j == who then kept s.existential_deposit balance else lookup j s.free_balances)
  lookup-set_free_balance j = rw set_free_balance-free (lookup-write who j _ s.free_balances)

module _ (who balance : ℕ) (s : Store) where
  pub set_reserved_balance-reserved :
      (set_reserved_balance who balance s).0.reserved_balances
      ≡ write who (kept s.existential_deposit balance) s.reserved_balances
  unfolding set_reserved_balance on_reserved_too_low reap_account deposit_event free_balance_zero
      remove_dust drop_negative
  set_reserved_balance-reserved =
      ground (arith, write-write who none (some balance) s.reserved_balances)

  pub set_reserved_balance-free :
      (set_reserved_balance who balance s).0.free_balances ≡ s.free_balances
  unfolding set_reserved_balance on_reserved_too_low reap_account deposit_event free_balance_zero
      remove_dust drop_negative
  set_reserved_balance-free = ground arith

  pub set_reserved_balance-issuance :
      (set_reserved_balance who balance s).0.total_issuance
      ≡ s.total_issuance - dust s.existential_deposit balance
  unfolding set_reserved_balance on_reserved_too_low reap_account deposit_event free_balance_zero
      remove_dust drop_negative reserved_balance
  set_reserved_balance-issuance =
      ground (arith, lookup-write who who (some balance) s.reserved_balances)

  pub set_reserved_balance-SameConfig : SameConfig s (set_reserved_balance who balance s).0
  unfolding set_reserved_balance on_reserved_too_low reap_account deposit_event free_balance_zero
      remove_dust drop_negative
  set_reserved_balance-SameConfig = ground arith

  -- The accounting of one change: `c` counts created and `d` destroyed funds that are not yet
  -- squared up with the total issuance.
  pub set_reserved_balance-settles :
      (c d c' d' : ℕ)
      → s.total_issuance + c ≡ held s + d
      → c' + d + reserved_balance who s ≡ c + d' + balance
      → dust s.existential_deposit balance ≤ s.total_issuance
      → (set_reserved_balance who balance s).0.total_issuance + c'
        ≡ held (set_reserved_balance who balance s).0 + d'
  unfolding held reserved_balance
  set_reserved_balance-settles c d c' d' books change room =
      rw (set_reserved_balance-issuance, set_reserved_balance-free, set_reserved_balance-reserved)
        (ground (
          arith,
          total-write who (kept s.existential_deposit balance) s.reserved_balances,
          lookup-le-total who s.reserved_balances,
        ))

  pub lookup-set_reserved_balance :
      (j : ℕ)
      → lookup j (set_reserved_balance who balance s).0.reserved_balances
        ≡ (if j == who then kept s.existential_deposit balance else lookup j s.reserved_balances)
  lookup-set_reserved_balance j =
      rw set_reserved_balance-reserved (lookup-write who j _ s.reserved_balances)
