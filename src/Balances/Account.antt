-- ===== src/Balances/Account.antt =====
-- srml/yee-balances/src/lib.rs: setting a balance, and what happens to an account that falls below
-- the existential deposit. The runtime's `DustRemoval` is `()`: the dust is dropped.
pub mod Effects
use yeeroot.Prelude.{
  ℕ, ◌+◌, ◌-◌, Bool, none, some, List, [], ◌∷◌, ◌++◌, min, ltb, ◌==◌, if◌then◌else◌,
}
use yeeroot.Storage.{ℕ_key, write}
use yeeroot.Balances.State.{
  Store, balance_mod, Event, Hook, on_new_account, on_free_balance_zero, UpdateBalanceOutcome,
  updated, account_killed, free_balance, reserved_balance, deposit_event,
}

-- Dropping a `NegativeImbalance`: `saturating_sub`.
unfoldable pub drop_negative : ℕ → Store → Store
drop_negative amount s = record s { total_issuance = s.total_issuance - amount }

-- Dropping a `PositiveImbalance`: `saturating_add`.
unfoldable pub drop_positive : ℕ → Store → Store
drop_positive amount s = record s {
  total_issuance = min (s.total_issuance + amount) (balance_mod - 1);
}

unfoldable pub new_account : ℕ → ℕ → Store → Store
new_account who balance s =
    deposit_event (Event.new_account who balance)
      (record s { hooks = s.hooks ++ on_new_account who ∷ [] })

unfoldable pub reap_account : ℕ → Store → Store
reap_account who s =
    deposit_event (Event.reaped_account who)
      (record s { account_nonces = write who none s.account_nonces })

-- `if !dust.is_zero() { T::DustRemoval::on_unbalanced(..) }`
unfoldable pub remove_dust : ℕ → Store → Store
remove_dust dust s = if dust == 0 then s else drop_negative dust s

unfoldable pub free_balance_zero : ℕ → Store → Store
free_balance_zero who s = record s { hooks = s.hooks ++ on_free_balance_zero who ∷ [] }

unfoldable pub on_free_too_low : ℕ → Store → Store
on_free_too_low who s =
    let dust = free_balance who s in
    let taken : Store = record s {
      free_balances = write who none s.free_balances;
      locks = write who none s.locks;
    } in
    let s' = free_balance_zero who (remove_dust dust taken) in
    if reserved_balance who s' == 0 then reap_account who s' else s'

unfoldable pub on_reserved_too_low : ℕ → Store → Store
on_reserved_too_low who s =
    let dust = reserved_balance who s in
    let taken : Store = record s { reserved_balances = write who none s.reserved_balances } in
    let s' = remove_dust dust taken in if free_balance who s' == 0 then reap_account who s' else s'

unfoldable pub set_free_balance : ℕ → ℕ → Store → Store × UpdateBalanceOutcome
set_free_balance who balance s =
    let s' : Store = record s { free_balances = write who (some balance) s.free_balances } in
    if ltb balance s.existential_deposit
    then (on_free_too_low who s', account_killed)
    else (s', updated)

unfoldable pub set_reserved_balance : ℕ → ℕ → Store → Store × UpdateBalanceOutcome
set_reserved_balance who balance s =
    let s' : Store = record s {
      reserved_balances = write who (some balance) s.reserved_balances;
    } in
    if ltb balance s.existential_deposit
    then (on_reserved_too_low who s', account_killed)
    else (s', updated)
