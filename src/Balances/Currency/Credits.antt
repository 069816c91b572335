-- ===== src/Balances/Currency/Credits.antt =====
-- `make_free_balance_be` and the deposits: the imbalance that each returns stands for exactly what
-- it adds to the accounts or takes from them.
use yeeroot.Prelude.{ℕ, ◌+◌, ◌-◌, ◌%◌, ◌≤◌, ◌<◌, ◌≡◌, arith, ltb, ◌==◌, ◌&&◌, if◌then◌else◌}
use yeeroot.Balances.State.{Store, balance_mod, free_balance, total_balance, held, ok}
use yeeroot.Balances.Account.Effects.{dust, set_free_balance-settles}
use yeeroot.Balances.Currency.{
  create_if_absent, SignedImbalance, positive, negative, make_free_balance_be, take_positive,
  deposit_creating, deposit_into_existing,
}
use yeeroot.Balances.Currency.Accounting.{
  create_if_absent-same, held-create_if_absent, free_balance-create_if_absent,
}

-- The created part of an imbalance, and the destroyed part.
abbrev created : SignedImbalance → ℕ
created (positive p) = p
created (negative n) = 0

abbrev destroyed : SignedImbalance → ℕ
destroyed (positive p) = 0
destroyed (negative n) = n

-- Setting a free balance returns the imbalance that stands for the change of what the accounts
-- hold, if the total issuance covers the existential deposit.
pub make_free_balance_be-settles :
    (who balance : ℕ) (s : Store)
    → s.total_issuance ≡ held s
    → s.existential_deposit ≤ s.total_issuance
    → let ((imbalance, _), s') = make_free_balance_be who balance s in
      s'.total_issuance + created imbalance ≡ held s' + destroyed imbalance
unfolding make_free_balance_be
make_free_balance_be-settles who balance s settled covers =
    let ready : Store = create_if_absent who balance s in
    ground (
      arith,
      create_if_absent-same who balance s,
      held-create_if_absent who balance s,
      free_balance-create_if_absent who who balance s,
      set_free_balance-settles who balance s 0 0 (balance - free_balance who s)
          (free_balance who s - balance),
      set_free_balance-settles who balance ready 0 0 (balance - free_balance who s)
          (free_balance who s - balance),
    )

-- Creating a deposit credits the imbalance that it returns, if the total issuance covers the
-- existential deposit and the new balance fits a `u128`: the value, or nothing where an account
-- without funds would get less than the existential deposit.
pub deposit_creating-settles :
    (who value : ℕ) (s : Store)
    → s.total_issuance ≡ held s
    → s.existential_deposit ≤ s.total_issuance
    → free_balance who s + value < balance_mod
    → let (imbalance, s') = deposit_creating who value s in
      (s'.total_issuance + imbalance ≡ held s')
      × (imbalance
          ≡ (if ltb value s.existential_deposit && free_balance who s == 0 then 0 else value))
unfolding deposit_creating take_positive make_free_balance_be
deposit_creating-settles who value s settled covers fits =
    let wrap : (free_balance who s + value) % balance_mod ≡ free_balance who s + value =
      omega arith in
    let settles = make_free_balance_be-settles who (free_balance who s + value) s settled covers in
    rw wrap (unfold make_free_balance_be in ground (arith, settles))

-- A deposit into an account that has funds succeeds and credits its value, if the total issuance
-- covers the existential deposit and the new balance fits a `u128`.
pub deposit_into_existing-settles :
    (who value : ℕ) (s : Store)
    → s.total_issuance ≡ held s
    → s.existential_deposit ≤ s.total_issuance
    → free_balance who s + value < balance_mod
    → 0 < total_balance who s
    → let (r, s') = deposit_into_existing who value s in
      (r ≡ ok value) × (s'.total_issuance + value ≡ held s')
unfolding deposit_into_existing
deposit_into_existing-settles who value s settled covers fits funded =
    let target : ℕ = free_balance who s + value in
    let small : dust s.existential_deposit target ≤ s.total_issuance = ground arith in
    let settles =
      set_free_balance-settles who target s 0 0 value 0 (omega arith) (omega arith) small in
    ground (arith, settles)
