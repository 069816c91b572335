-- ===== src/Balances/Currency/Accounting.antt =====
-- The total issuance accounts for what the accounts hold, through every operation of `Currency`.
use yeeroot.Prelude.{ℕ, ◌+◌, ◌-◌, ◌≤◌, ◌≡◌, ◌≢◌, ◌∙◌, sym, arith, ltb, ◌==◌, if◌then◌else◌}
use yeeroot.Storage.{ℕ_key, lookup-le-total, add-lookup-le-total}
use yeeroot.Balances.State.{Store, free_balance, reserved_balance, held, deposit_event}
use yeeroot.Balances.Account.{drop_negative, new_account, set_free_balance}
use yeeroot.Balances.Account.Effects.{
  SameConfig, set_free_balance-settles, set_free_balance-SameConfig, lookup-set_free_balance,
}
use yeeroot.Balances.Currency.{
  on_fee_withdrawn, charge_transfer, transfer_across, create_if_absent, transfer_within,
}

-- No account holds more than all accounts together.
pub free_balance-le-held :
    (who : ℕ) (s : Store) → free_balance who s + reserved_balance who s ≤ held s
unfolding free_balance reserved_balance held
free_balance-le-held who s =
    omega (arith, lookup-le-total who s.free_balances, lookup-le-total who s.reserved_balances)

pub free_balances-le-held :
    (a b : ℕ) (s : Store) → a ≢ b → free_balance a s + free_balance b s ≤ held s
unfolding free_balance held
free_balances-le-held a b s ne =
    omega (arith, add-lookup-le-total a b s.free_balances (λ e. ne (ground arith)))

pub create_if_absent-same :
    (who balance : ℕ) (s : Store)
    → ((create_if_absent who balance s).free_balances ≡ s.free_balances)
      × ((create_if_absent who balance s).reserved_balances ≡ s.reserved_balances)
      × ((create_if_absent who balance s).total_issuance ≡ s.total_issuance)
      × SameConfig s (create_if_absent who balance s)
unfolding create_if_absent new_account deposit_event
create_if_absent-same who balance s = ground arith

pub charge_transfer-same :
    (a b value fee : ℕ) (s : Store)
    → ((charge_transfer a b value fee s).free_balances ≡ s.free_balances)
      × ((charge_transfer a b value fee s).reserved_balances ≡ s.reserved_balances)
      × ((charge_transfer a b value fee s).total_issuance ≡ s.total_issuance - fee)
      × SameConfig s (charge_transfer a b value fee s)
unfolding charge_transfer drop_negative on_fee_withdrawn deposit_event
charge_transfer-same a b value fee s = ground arith

-- Once another account's balance is set, an account has what it had.
pub free_balance-set_ne :
    (who j balance : ℕ) (s : Store)
    → j ≢ who
    → free_balance j (set_free_balance who balance s).0 ≡ free_balance j s
unfolding free_balance
free_balance-set_ne who j balance s ne = ground (arith, lookup-set_free_balance who balance s j)

pub held-create_if_absent :
    (who balance : ℕ) (s : Store) → held (create_if_absent who balance s) ≡ held s
unfolding held
held-create_if_absent who balance s = ground (arith, create_if_absent-same who balance s)

held-charge_transfer :
    (a b value fee : ℕ) (s : Store) → held (charge_transfer a b value fee s) ≡ held s
unfolding held
held-charge_transfer a b value fee s = ground (arith, charge_transfer-same a b value fee s)

pub free_balance-create_if_absent :
    (who j balance : ℕ) (s : Store)
    → free_balance j (create_if_absent who balance s) ≡ free_balance j s
unfolding free_balance
free_balance-create_if_absent who j balance s = ground (arith, create_if_absent-same who balance s)

-- The sender's side, with the value and the fee taken from its account and not yet accounted for.
sender-settles :
    (a value fee rest : ℕ) (s : Store)
    → s.total_issuance ≡ held s
    → rest + value + fee ≡ free_balance a s
    → (set_free_balance a rest s).0.total_issuance
      ≡ held (set_free_balance a rest s).0 + (value + fee)
sender-settles a value fee rest s settled split = omega (
  arith,
  set_free_balance-settles a rest s 0 0 0 (value + fee) (omega arith) (omega arith)
      (ground (arith, free_balance-le-held a s)),
)

pub transfer_across-settles :
    (a b value fee rest : ℕ) (s : Store)
    → s.total_issuance ≡ held s
    → rest + value + fee ≡ free_balance a s
    → (transfer_across a b value fee rest s).total_issuance
      ≡ held (transfer_across a b value fee rest s) + value
unfolding transfer_across
transfer_across-settles a b value fee rest s settled split =
    let paid : Store = (set_free_balance a rest s).0 in
    omega (
      arith,
      sender-settles a value fee rest s settled split,
      held-charge_transfer a b value fee paid,
      (charge_transfer-same a b value fee paid).2,
    )

pub transfer_within-settles :
    (a b value fee rest : ℕ) (s : Store)
    → a ≢ b
    → s.total_issuance ≡ held s
    → rest + value + fee ≡ free_balance a s
    → (transfer_within a b value fee rest (free_balance b s + value) s).total_issuance
      ≡ held (transfer_within a b value fee rest (free_balance b s + value) s)
unfolding transfer_within
transfer_within-settles a b value fee rest s ne settled split =
    let target : ℕ = free_balance b s + value in
    let paid : Store = (set_free_balance a rest s).0 in
    let ready : Store = create_if_absent b target paid in
    let credited : Store = (set_free_balance b target ready).0 in
    let same = create_if_absent-same b target paid in
    let owed = sender-settles a value fee rest s settled split in
    let settles_ready : ready.total_issuance + 0 ≡ held ready + (value + fee) =
      omega (arith, owed, held-create_if_absent b target paid, same.2) in
    let before : free_balance b ready ≡ free_balance b s =
      free_balance-create_if_absent b b target paid
      ∙ free_balance-set_ne a b rest s (λ e. ne (sym e)) in
    let done : credited.total_issuance + 0 ≡ held credited + fee =
      set_free_balance-settles b target ready 0 (value + fee) 0 fee settles_ready
        (omega (arith, before)) (ground (arith, free_balance-le-held b ready)) in
    omega (
      arith,
      done,
      held-charge_transfer a b value fee credited,
      (charge_transfer-same a b value fee credited).2,
    )

-- What an account reads after its balance is set: nothing below the existential deposit.
abbrev pub stored : ℕ → ℕ → ℕ
stored deposit balance = if ltb balance deposit then 0 else balance

pub free_balance-set :
    (who j balance : ℕ) (s : Store)
    → free_balance j (set_free_balance who balance s).0
      ≡ (if j == who then stored s.existential_deposit balance else free_balance j s)
unfolding free_balance
free_balance-set who j balance s = ground (arith, lookup-set_free_balance who balance s j)

free_balance-charge_transfer :
    (a b value fee j : ℕ) (s : Store)
    → free_balance j (charge_transfer a b value fee s) ≡ free_balance j s
unfolding free_balance
free_balance-charge_transfer a b value fee j s =
    ground (arith, charge_transfer-same a b value fee s)

pub free_balance-transfer_within :
    (a b value fee rest target j : ℕ) (s : Store)
    → a ≢ b
    → free_balance j (transfer_within a b value fee rest target s) ≡ (
        if j == a
        then stored s.existential_deposit rest
        else if j == b
        then stored s.existential_deposit target
        else free_balance j s)
unfolding transfer_within
free_balance-transfer_within a b value fee rest target j s ne =
    let paid : Store = (set_free_balance a rest s).0 in
    let ready : Store = create_if_absent b target paid in
    ground (
      arith,
      free_balance-charge_transfer a b value fee j (set_free_balance b target ready).0,
      free_balance-set b j target ready,
      free_balance-create_if_absent b j target paid,
      free_balance-set a j rest s,
      create_if_absent-same b target paid,
      set_free_balance-SameConfig a rest s,
    )
