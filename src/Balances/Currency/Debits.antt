-- ===== src/Balances/Currency/Debits.antt =====
-- `withdraw`, `make_payment`, `slash` and the deposits: the imbalance that each returns stands for
-- exactly what it takes from or adds to the accounts.
use yeeroot.Prelude.{ℕ, ◌+◌, ◌-◌, ◌*◌, ◌%◌, ◌≤◌, ◌<◌, ◌≡◌, ◌≢◌, refl, inl, inr, arith, min}
use yeeroot.Balances.State.{
  Store, balance_mod, WithdrawReason, ExistenceRequirement, keep_alive, allow_death, free_balance,
  reserved_balance, held, Error, ok, err, panicked, Outcome-cases,
}
use yeeroot.Balances.Account.{set_free_balance, drop_negative}
use yeeroot.Balances.Account.Effects.{
  set_free_balance-settles, set_reserved_balance-settles, set_free_balance-issuance,
}
use yeeroot.Balances.Currency.{
  ensure_can_withdraw, deny_kill, withdraw, make_payment, slash, on_fee_withdrawn,
}
use yeeroot.Balances.Currency.Accounting.{free_balance-le-held, free_balance-set}
use yeeroot.Balances.Reserve.Laws.{reserved_balance-set_free}
use yeeroot.Balances.Currency.Transfers.{ensure_can_withdraw-same}

pub deny_kill-same :
    (liveness : ExistenceRequirement) (rest deposit : ℕ) (s : Store)
    → (deny_kill liveness rest deposit s).1 ≡ s
unfolding deny_kill
deny_kill-same keep_alive rest deposit s = ground arith
deny_kill-same allow_death rest deposit s = refl

deny_kill-survives :
    (rest deposit : ℕ) (s : Store)
    → (deny_kill keep_alive rest deposit s).0 ≡ ok tt
    → deposit ≤ rest
unfolding deny_kill
deny_kill-survives rest deposit s h = ground arith

taken-settles :
    (who value : ℕ) (s : Store)
    → s.total_issuance ≡ held s
    → value ≤ free_balance who s
    → (set_free_balance who (free_balance who s - value) s).0.total_issuance
      ≡ held (set_free_balance who (free_balance who s - value) s).0 + value
taken-settles who value s settled enough =
    let rest : ℕ = free_balance who s - value in
    omega (
      arith,
      set_free_balance-settles who rest s 0 0 0 value (omega arith) (omega arith)
          (ground (arith, free_balance-le-held who s)),
    )

module _ (who value : ℕ) (reason : WithdrawReason) (liveness : ExistenceRequirement)
    (s : Store) where
  -- A withdrawal that succeeds returns an imbalance of its value, by which the total issuance runs
  -- ahead of what the accounts hold, from an account that has the value.
  pub withdraw-owes :
      (imbalance : ℕ)
      → s.total_issuance ≡ held s
      → (withdraw who value reason liveness s).0 ≡ ok imbalance
      → let s' = (withdraw who value reason liveness s).1 in
        (imbalance ≡ value) × (value ≤ free_balance who s) × (s'.total_issuance ≡ held s' + value)
  unfolding withdraw
  withdraw-owes imbalance settled done =
      let rest : ℕ = free_balance who s - value in
      ground (
        arith,
        deny_kill-same liveness rest s.existential_deposit s,
        ensure_can_withdraw-same who value reason rest s,
        taken-settles who value s settled,
      )

  -- A withdrawal that fails changes nothing in storage.
  pub withdraw_atomic :
      (e : Error)
      → (withdraw who value reason liveness s).0 ≡ err e
      → (withdraw who value reason liveness s).1 ≡ s
  unfolding withdraw
  withdraw_atomic e failed =
      let rest : ℕ = free_balance who s - value in
      ground (
        arith,
        deny_kill-same liveness rest s.existential_deposit s,
        ensure_can_withdraw-same who value reason rest s,
      )

withdraw-ne-panicked :
    (who value : ℕ) (reason : WithdrawReason) (s : Store)
    → (withdraw who value reason keep_alive s).0 ≢ panicked
unfolding withdraw deny_kill ensure_can_withdraw
withdraw-ne-panicked who value reason s = ground arith

-- A withdrawal that must keep the account alive leaves it what it had less the value, and at least
-- the existential deposit.
pub withdraw_keeps_alive :
    (who value imbalance : ℕ) (reason : WithdrawReason) (s : Store)
    → (withdraw who value reason keep_alive s).0 ≡ ok imbalance
    → let left = free_balance who (withdraw who value reason keep_alive s).1 in
      (left + value ≡ free_balance who s) × (s.existential_deposit ≤ left)
unfolding withdraw
withdraw_keeps_alive who value imbalance reason s done =
    let rest : ℕ = free_balance who s - value in
    ground (
      arith,
      deny_kill-same keep_alive rest s.existential_deposit s,
      deny_kill-survives rest s.existential_deposit s,
      ensure_can_withdraw-same who value reason rest s,
      free_balance-set who who rest s,
    )

held-on_fee_withdrawn :
    (fee amount : ℕ) (s : Store)
    → (held (on_fee_withdrawn fee (drop_negative amount s)) ≡ held s)
      × ((on_fee_withdrawn fee (drop_negative amount s)).total_issuance ≡ s.total_issuance - amount)
unfolding held on_fee_withdrawn drop_negative
held-on_fee_withdrawn fee amount s = (refl, refl)

-- Paying for a transaction keeps the total issuance equal to what the accounts hold, however it
-- ends.
pub make_payment-settled :
    (transactor encoded_len : ℕ) (s : Store)
    → s.total_issuance ≡ held s
    → (make_payment transactor encoded_len s).1.total_issuance
      ≡ held (make_payment transactor encoded_len s).1
unfolding make_payment
make_payment-settled transactor encoded_len s settled =
    let fee : ℕ = (s.transaction_base_fee + s.transaction_byte_fee * encoded_len) % balance_mod in
    let reason : WithdrawReason = WithdrawReason.transaction_payment in
    let taken : Store = (withdraw transactor fee reason keep_alive s).1 in
    elim (Outcome-cases (withdraw transactor fee reason keep_alive s).0) [
      | inl (imbalance, done) ↦ ground (
        arith,
        withdraw-owes transactor fee reason keep_alive s imbalance settled done,
        held-on_fee_withdrawn fee imbalance taken,
      )
      | inr (inl (e, failed)) ↦
          ground (arith, withdraw_atomic transactor fee reason keep_alive s e failed)
      | inr (inr p) ↦ absurd (withdraw-ne-panicked transactor fee reason s p)
    ]

-- Where the total issuance is what the accounts hold and fits a `u128`, slashing takes from the free balance first and then from the reserved one; the imbalance that is
-- returned stands for all that was taken, and with the part that was not slashed it makes up the
-- value.
pub slash-settles :
    (who value : ℕ) (s : Store)
    → s.total_issuance ≡ held s
    → s.total_issuance < balance_mod
    → let ((imbalance, unslashed), s') = slash who value s in
      (s'.total_issuance ≡ held s' + imbalance) × (imbalance + unslashed ≡ value)
unfolding slash
slash-settles who value s settled fits =
    let free : ℕ = free_balance who s in
    let free_slash : ℕ = min free value in
    let t : Store = (set_free_balance who (free - free_slash) s).0 in
    let first = taken-settles who free_slash s settled (omega arith) in
    let kept_reserved = reserved_balance-set_free who who (free - free_slash) s in
    let reserved : ℕ = reserved_balance who t in
    let more : ℕ = min reserved (value - free_slash) in
    let second =
      set_reserved_balance-settles who (reserved - more) t 0 free_slash 0 (free_slash + more)
        (omega (arith, first)) (omega arith)
        (ground (
          arith,
          set_free_balance-issuance who (free - free_slash) s,
          kept_reserved,
          free_balance-le-held who s,
        )) in
    ground (arith, first, second, kept_reserved, free_balance-le-held who s)
