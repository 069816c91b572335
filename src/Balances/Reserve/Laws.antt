-- ===== src/Balances/Reserve/Laws.antt =====
-- Moving funds between the two balances of accounts creates and destroys nothing.
use yeeroot.Prelude.{ℕ, ◌+◌, ◌-◌, ◌%◌, ◌≤◌, ◌<◌, ◌≡◌, ◌≢◌, true, ◌↔◌, arith, min}
use yeeroot.Storage.{ℕ_key, lookup-le-total}
use yeeroot.Balances.State.{
  Store, balance_mod, WithdrawReason, free_balance, reserved_balance, held, ok,
}
use yeeroot.Balances.Account.{set_free_balance, set_reserved_balance}
use yeeroot.Balances.Account.Effects.{
  set_free_balance-settles, set_reserved_balance-settles, set_free_balance-issuance,
  set_reserved_balance-issuance, set_reserved_balance-free, set_free_balance-reserved,
}
use yeeroot.Balances.Currency.Accounting.{free_balance-le-held}
use yeeroot.Balances.Currency.Transfers.{ensure_can_withdraw-same}
use yeeroot.Balances.Reserve.{
  can_reserve, move_to_reserved, reserve, unreserve, slash_reserved, repatriate_reserved,
}

pub free_balance-set_reserved :
    (who j balance : ℕ) (s : Store)
    → free_balance j (set_reserved_balance who balance s).0 ≡ free_balance j s
unfolding free_balance
free_balance-set_reserved who j balance s = ground (arith, set_reserved_balance-free who balance s)

pub reserved_balance-set_free :
    (who j balance : ℕ) (s : Store)
    → reserved_balance j (set_free_balance who balance s).0 ≡ reserved_balance j s
unfolding reserved_balance
reserved_balance-set_free who j balance s = ground (arith, set_free_balance-reserved who balance s)

-- One account's free and another's reserved funds are parts of what is held.
pub free-reserved-le-held : (a b : ℕ) (s : Store) → free_balance a s + reserved_balance b s ≤ held s
unfolding free_balance reserved_balance held
free-reserved-le-held a b s =
    omega (arith, lookup-le-total a s.free_balances, lookup-le-total b s.reserved_balances)

move_to_reserved-settles :
    (who value rest : ℕ) (s : Store)
    → s.total_issuance ≡ held s
    → s.total_issuance < balance_mod
    → rest + value ≡ free_balance who s
    → (move_to_reserved who value rest s).total_issuance ≡ held (move_to_reserved who value rest s)
unfolding move_to_reserved
move_to_reserved-settles who value rest s settled fits split =
    let r : ℕ = reserved_balance who s in
    let bound = free_balance-le-held who s in
    let t : Store = (set_reserved_balance who (r + value) s).0 in
    let up : t.total_issuance + value ≡ held t + 0 =
      set_reserved_balance-settles who (r + value) s 0 0 value 0 (omega arith) (omega arith)
        (ground arith) in
    let down =
      set_free_balance-settles who rest t value 0 0 0 up
        (omega (arith, free_balance-set_reserved who who (r + value) s))
        (ground (arith, set_reserved_balance-issuance who (r + value) s)) in
    let wrap : (r + value) % balance_mod ≡ r + value = omega arith in
    rw (wrap, move_to_reserved) (omega (arith, down))

-- Reserving funds keeps the total issuance equal to what the accounts hold, however it ends.
pub reserve-settled :
    (who value : ℕ) (s : Store)
    → s.total_issuance ≡ held s
    → s.total_issuance < balance_mod
    → (reserve who value s).1.total_issuance ≡ held (reserve who value s).1
unfolding reserve
reserve-settled who value s settled fits =
    let rest : ℕ = free_balance who s - value in
    ground (
      arith,
      ensure_can_withdraw-same who value WithdrawReason.reserve rest s,
      move_to_reserved-settles who value rest s,
    )

-- `can_reserve` tells exactly whether `reserve` succeeds.
pub can_reserve-decides :
    (who value : ℕ) (s : Store)
    → (can_reserve who value s ≡ true) ↔ ((reserve who value s).0 ≡ ok tt)
unfolding can_reserve reserve
can_reserve-decides who value s =
    let same =
      ensure_can_withdraw-same who value WithdrawReason.reserve (free_balance who s - value) s in
    (λ h. ground (arith, same), λ h. ground (arith, same))

-- A `reserve` that does not succeed changes nothing in storage.
pub reserve_atomic :
    (who value : ℕ) (s : Store) → (reserve who value s).0 ≢ ok tt → (reserve who value s).1 ≡ s
unfolding reserve
reserve_atomic who value s failed = ground (
  arith,
  ensure_can_withdraw-same who value WithdrawReason.reserve (free_balance who s - value) s,
)

-- Unreserving keeps the total issuance equal to what the accounts hold and returns the part of the
-- value that was not reserved.
pub unreserve-settled :
    (who value : ℕ) (s : Store)
    → s.total_issuance ≡ held s
    → s.total_issuance < balance_mod
    → ((unreserve who value s).1.total_issuance ≡ held (unreserve who value s).1)
      × ((unreserve who value s).0 + min (reserved_balance who s) value ≡ value)
unfolding unreserve
unreserve-settled who value s settled fits =
    let b : ℕ = reserved_balance who s in
    let actual : ℕ = min b value in
    let bound = free_balance-le-held who s in
    let target : ℕ = free_balance who s + actual in
    let t : Store = (set_free_balance who target s).0 in
    let up : t.total_issuance + actual ≡ held t + 0 =
      set_free_balance-settles who target s 0 0 actual 0 (omega arith) (omega arith)
        (ground arith) in
    let down =
      set_reserved_balance-settles who (b - actual) t actual 0 0 0 up
        (omega (arith, reserved_balance-set_free who who target s))
        (ground (arith, set_free_balance-issuance who target s)) in
    let wrap : (free_balance who s + actual) % balance_mod ≡ target = omega arith in
    (rw (wrap, unreserve) (omega (arith, down)), omega arith)

-- Slashing reserved funds takes them from what the accounts hold; the imbalance that is returned
-- stands for them, and with the part that was not slashed it makes up the value.
pub slash_reserved-settles :
    (who value : ℕ) (s : Store)
    → s.total_issuance ≡ held s
    → let ((imbalance, unslashed), s') = slash_reserved who value s in
      (s'.total_issuance ≡ held s' + imbalance) × (imbalance + unslashed ≡ value)
unfolding slash_reserved
slash_reserved-settles who value s settled =
    let b : ℕ = reserved_balance who s in
    let rest : ℕ = b - min b value in
    (
      omega (
        arith,
        set_reserved_balance-settles who rest s 0 0 0 (min b value) (omega arith) (omega arith)
            (ground (arith, free_balance-le-held who s)),
      ),
      omega arith,
    )

-- Repatriating reserved funds keeps the total issuance, if it fits a `u128`, equal to what the accounts
-- hold, however it ends.
pub repatriate_reserved-settled :
    (slashed beneficiary value : ℕ) (s : Store)
    → s.total_issuance ≡ held s
    → s.total_issuance < balance_mod
    → (repatriate_reserved slashed beneficiary value s).1.total_issuance
      ≡ held (repatriate_reserved slashed beneficiary value s).1
unfolding repatriate_reserved
repatriate_reserved-settled slashed beneficiary value s settled fits =
    let b : ℕ = reserved_balance slashed s in
    let slash : ℕ = min b value in
    let bound = free-reserved-le-held beneficiary slashed s in
    let target : ℕ = free_balance beneficiary s + slash in
    let t : Store = (set_free_balance beneficiary target s).0 in
    let up : t.total_issuance + slash ≡ held t + 0 =
      set_free_balance-settles beneficiary target s 0 0 slash 0 (omega arith) (omega arith)
        (ground arith) in
    let down =
      set_reserved_balance-settles slashed (b - slash) t slash 0 0 0 up
        (omega (arith, reserved_balance-set_free beneficiary slashed target s))
        (ground (arith, set_free_balance-issuance beneficiary target s)) in
    let wrap : (free_balance beneficiary s + slash) % balance_mod ≡ target = omega arith in
    rw (wrap, repatriate_reserved) (ground (arith, down))
