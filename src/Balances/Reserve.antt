-- ===== src/Balances/Reserve.antt =====
-- srml/yee-balances/src/lib.rs: `impl ReservableCurrency`.
pub mod Laws
use yeeroot.Prelude.{ℕ, ◌+◌, ◌-◌, ◌%◌, Bool, true, false, none, some, min, ltb, ◌==◌, if◌then◌else◌}
use yeeroot.Balances.State.{
  Store, balance_mod, WithdrawReason, free_balance, reserved_balance, total_balance, checked_sub,
  beneficiary_must_exist, not_enough_free_funds, Outcome, ok, err, panicked, Action, gets, modify,
  or_raise, pure, ◌>>=◌, ◌>>◌,
}
use yeeroot.Balances.Account.{set_free_balance, set_reserved_balance}
use yeeroot.Balances.Currency.{ensure_can_withdraw}

abbrev pub is_ok : {A : Type 0} → Outcome A → Bool
is_ok (ok a) = true
is_ok (err e) = false
is_ok panicked = false

unfoldable pub can_reserve : ℕ → ℕ → Store → Bool
can_reserve who value s = elim (checked_sub (free_balance who s) value) [
  | none ↦ false
  | some new_balance ↦ is_ok (ensure_can_withdraw who value WithdrawReason.reserve new_balance s).0
]

-- The two writes of `reserve`.
unfoldable pub move_to_reserved : ℕ → ℕ → ℕ → Store → Store
move_to_reserved who value new_balance s =
    (set_free_balance who new_balance
      (set_reserved_balance who ((reserved_balance who s + value) % balance_mod) s).0).0

unfoldable pub reserve : ℕ → ℕ → Action (Unit {0})
reserve who value = do
  b ← gets (free_balance who)
  new_balance ← or_raise (checked_sub b value) not_enough_free_funds
  ensure_can_withdraw who value WithdrawReason.reserve new_balance
  modify (move_to_reserved who value new_balance)

-- The result is what could not be unreserved.
unfoldable pub unreserve : ℕ → ℕ → Store → ℕ × Store
unreserve who value s =
    let b = reserved_balance who s in
    let actual = min b value in
    let s' = (set_free_balance who ((free_balance who s + actual) % balance_mod) s).0 in
    (value - actual, (set_reserved_balance who (b - actual) s').0)

-- The negative imbalance, and what could not be slashed.
unfoldable pub slash_reserved : ℕ → ℕ → Store → (ℕ × ℕ) × Store
slash_reserved who value s =
    let b = reserved_balance who s in
    let slash = min b value in ((slash, value - slash), (set_reserved_balance who (b - slash) s).0)

unfoldable pub repatriate_reserved : ℕ → ℕ → ℕ → Action ℕ
repatriate_reserved slashed beneficiary value s =
    let b = reserved_balance slashed s in
    let slash = min b value in
    let s' =
      (set_free_balance beneficiary ((free_balance beneficiary s + slash) % balance_mod) s).0 in
    if total_balance beneficiary s == 0
    then (err beneficiary_must_exist, s)
    else (ok (value - slash), (set_reserved_balance slashed (b - slash) s').0)
