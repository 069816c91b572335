-- ===== src/Balances/Invariant/Steps.antt =====
-- Every operation keeps the invariant, and so does every sequence of them.
use yeeroot.Prelude.{
  ℕ, ◌+◌, ◌-◌, ◌%◌, ◌≡◌, ◌⊎◌, refl, sym, List, arith, ◌==◌, subst, Bool-cases, inl, inr, min, ◌*◌,
  ltb,
}
use yeeroot.Balances.State.{
  Store, WithdrawReason, ExistenceRequirement, keep_alive, Event, deposit_event, free_balance,
  reserved_balance, total_balance, balance_mod, Outcome-cases,
}
use yeeroot.Balances.Account.{drop_negative, drop_positive, set_free_balance}
use yeeroot.Balances.Currency.{
  on_fee_withdrawn, charge_transfer, transfer_across, create_if_absent, transfer_within,
  transfer_checked, transfer, withdraw, slash, deposit_into_existing, SignedImbalance, positive,
  negative, make_free_balance_be, take_positive, deposit_creating, make_payment, set_balance,
  relay_transfer,
}
use yeeroot.Balances.Currency.Accounting.{create_if_absent-same, charge_transfer-same}
use yeeroot.Balances.Currency.Transfers.{ensure_can_withdraw-same}
use yeeroot.Balances.Currency.Debits.{deny_kill-same}
use yeeroot.Balances.Invariant.Keeps.{
  IsLive, IsLive-same, set_free_balance-IsLive, set_reserved_balance-IsLive,
}

drop_negative-IsLive : (n : ℕ) (s : Store) → IsLive s → IsLive (drop_negative n s)
unfolding drop_negative
drop_negative-IsLive n s = IsLive-same s _ refl refl refl

pub drop_positive-IsLive : (n : ℕ) (s : Store) → IsLive s → IsLive (drop_positive n s)
unfolding drop_positive
drop_positive-IsLive n s = IsLive-same s _ refl refl refl

on_fee_withdrawn-IsLive : (n : ℕ) (s : Store) → IsLive s → IsLive (on_fee_withdrawn n s)
unfolding on_fee_withdrawn
on_fee_withdrawn-IsLive n s = IsLive-same s _ refl refl refl

deposit_event-IsLive : (e : Event) (s : Store) → IsLive s → IsLive (deposit_event e s)
unfolding deposit_event
deposit_event-IsLive e s = IsLive-same s _ refl refl refl

create_if_absent-IsLive : (who n : ℕ) (s : Store) → IsLive s → IsLive (create_if_absent who n s)
create_if_absent-IsLive who n s =
    let (f, r, _, c) = create_if_absent-same who n s in IsLive-same s _ f r c.deposit

charge_transfer-IsLive :
    (a b value fee : ℕ) (s : Store) → IsLive s → IsLive (charge_transfer a b value fee s)
charge_transfer-IsLive a b value fee s =
    let (f, r, _, c) = charge_transfer-same a b value fee s in IsLive-same s _ f r c.deposit

transfer_across-IsLive :
    (a b value fee rest : ℕ) (s : Store) → IsLive s → IsLive (transfer_across a b value fee rest s)
unfolding transfer_across
transfer_across-IsLive a b value fee rest s live =
    charge_transfer-IsLive a b value fee _ (set_free_balance-IsLive a rest s live)

transfer_within-IsLive :
    (a b value fee rest target : ℕ) (s : Store)
    → IsLive s
    → IsLive (transfer_within a b value fee rest target s)
unfolding transfer_within
transfer_within-IsLive a b value fee rest target s live = charge_transfer-IsLive a b value fee _ (
    set_free_balance-IsLive b target _
      (create_if_absent-IsLive b target _ (set_free_balance-IsLive a rest s live)))

-- What a transfer leaves of storage, whichever way it ends.
transfer-shape :
    (encode : ℕ → List ℕ) (a b value : ℕ) (s : Store)
    → let rest = free_balance a s - (value + s.transfer_fee) in
      ((transfer encode a b value s).1 ≡ s)
      ⊎ (((transfer encode a b value s).1 ≡ transfer_across a b value s.transfer_fee rest s)
          ⊎ ((transfer encode a b value s).1
              ≡ transfer_within a b value s.transfer_fee rest (free_balance b s + value) s))
unfolding transfer transfer_checked
transfer-shape encode a b value s = ground (
  arith,
  ensure_can_withdraw-same a value WithdrawReason.transfer
      (free_balance a s - (value + s.transfer_fee)) s,
)

pub transfer-IsLive :
    (encode : ℕ → List ℕ) (a b value : ℕ) (s : Store)
    → IsLive s
    → IsLive (transfer encode a b value s).1
transfer-IsLive encode a b value s live =
    let rest : ℕ = free_balance a s - (value + s.transfer_fee) in
    elim (transfer-shape encode a b value s) [
      | inl e ↦ subst IsLive (sym e) live
      | inr (inl e) ↦
          subst IsLive (sym e) (transfer_across-IsLive a b value s.transfer_fee rest s live)
      | inr (inr e) ↦
          subst IsLive (sym e)
            (transfer_within-IsLive a b value s.transfer_fee rest (free_balance b s + value) s live)
    ]

-- What a withdrawal leaves of storage, whichever way it ends.
withdraw-shape :
    (who value : ℕ) (reason : WithdrawReason) (liveness : ExistenceRequirement) (s : Store)
    → ((withdraw who value reason liveness s).1 ≡ s)
      ⊎ ((withdraw who value reason liveness s).1
          ≡ (set_free_balance who (free_balance who s - value) s).0)
unfolding withdraw
withdraw-shape who value reason liveness s =
    let rest : ℕ = free_balance who s - value in
    ground (
      arith,
      deny_kill-same liveness rest s.existential_deposit s,
      ensure_can_withdraw-same who value reason rest s,
    )

pub withdraw-IsLive :
    (who value : ℕ) (reason : WithdrawReason) (liveness : ExistenceRequirement) (s : Store)
    → IsLive s
    → IsLive (withdraw who value reason liveness s).1
withdraw-IsLive who value reason liveness s live =
    elim (withdraw-shape who value reason liveness s) [
      | inl e ↦ subst IsLive (sym e) live
      | inr e ↦
          subst IsLive (sym e) (set_free_balance-IsLive who (free_balance who s - value) s live)
    ]

make_payment-shape :
    (transactor encoded_len : ℕ) (s : Store)
    → let fee = (s.transaction_base_fee + s.transaction_byte_fee * encoded_len) % balance_mod in
      let paid = withdraw transactor fee WithdrawReason.transaction_payment keep_alive s in
      ((make_payment transactor encoded_len s).1 ≡ paid.1)
      ⊎ ((n : ℕ) × ((make_payment transactor encoded_len s).1
            ≡ on_fee_withdrawn fee (drop_negative n paid.1)))
unfolding make_payment
make_payment-shape transactor encoded_len s =
    let fee : ℕ = (s.transaction_base_fee + s.transaction_byte_fee * encoded_len) % balance_mod in
    elim (Outcome-cases
      (withdraw transactor fee WithdrawReason.transaction_payment keep_alive s).0) [
        | inl (n, e) ↦ inr (n, ground (arith, e))
        | inr (inl (x, e)) ↦ inl (ground (arith, e))
        | inr (inr e) ↦ inl (ground (arith, e))
      ]

pub make_payment-IsLive :
    (transactor encoded_len : ℕ) (s : Store)
    → IsLive s
    → IsLive (make_payment transactor encoded_len s).1
make_payment-IsLive transactor encoded_len s live =
    let fee : ℕ = (s.transaction_base_fee + s.transaction_byte_fee * encoded_len) % balance_mod in
    let reason : WithdrawReason = WithdrawReason.transaction_payment in
    let taken = withdraw-IsLive transactor fee reason keep_alive s live in
    elim (make_payment-shape transactor encoded_len s) [
      | inl e ↦ subst IsLive (sym e) taken
      | inr (n, e) ↦
          subst IsLive (sym e) (on_fee_withdrawn-IsLive fee _ (drop_negative-IsLive n _ taken))
    ]

pub slash-IsLive : (who value : ℕ) (s : Store) → IsLive s → IsLive (slash who value s).1
unfolding slash
slash-IsLive who value s live =
    let free_slash : ℕ = min (free_balance who s) value in
    let t : Store = (set_free_balance who (free_balance who s - free_slash) s).0 in
    let first : IsLive t = set_free_balance-IsLive who (free_balance who s - free_slash) s live in
    let rest : ℕ = reserved_balance who t - min (reserved_balance who t) (value - free_slash) in
    elim (Bool-cases (value - free_slash == 0)) [
      | inl e ↦ rw e first
      | inr e ↦ rw e (set_reserved_balance-IsLive who rest t first)
    ]

pub deposit_into_existing-IsLive :
    (who value : ℕ) (s : Store) → IsLive s → IsLive (deposit_into_existing who value s).1
unfolding deposit_into_existing
deposit_into_existing-IsLive who value s live = elim (Bool-cases (total_balance who s == 0)) [
  | inl e ↦ rw e live
  | inr e ↦ rw e (set_free_balance-IsLive who ((free_balance who s + value) % balance_mod) s live)
]

pub make_free_balance_be-IsLive :
    (who balance : ℕ) (s : Store) → IsLive s → IsLive (make_free_balance_be who balance s).1
unfolding make_free_balance_be
make_free_balance_be-IsLive who balance s live =
    let written : IsLive (set_free_balance who balance s).0 =
      set_free_balance-IsLive who balance s live in
    elim (Bool-cases (ltb balance s.existential_deposit)) [
      | inl e ↦ elim (Bool-cases (free_balance who s == 0)) [
        | inl z ↦ rw (e, z) live
        | inr z ↦ rw (e, z) written
      ]
      | inr e ↦
          rw e (set_free_balance-IsLive who balance _ (create_if_absent-IsLive who balance s live))
    ]

take_positive-IsLive : (i : SignedImbalance) (s : Store) → IsLive s → IsLive (take_positive i s).1
unfolding take_positive
take_positive-IsLive (positive p) s live = live
take_positive-IsLive (negative n) s live = drop_negative-IsLive n s live

pub deposit_creating-IsLive :
    (who value : ℕ) (s : Store) → IsLive s → IsLive (deposit_creating who value s).1
unfolding deposit_creating
deposit_creating-IsLive who value s live =
    take_positive-IsLive _ _
      (make_free_balance_be-IsLive who ((free_balance who s + value) % balance_mod) s live)

pub set_balance-IsLive :
    (who free reserved : ℕ) (s : Store) → IsLive s → IsLive (set_balance who free reserved s)
unfolding set_balance
set_balance-IsLive who free reserved s live =
    set_reserved_balance-IsLive who reserved _ (set_free_balance-IsLive who free s live)

relay_transfer-shape :
    (sender to amount : ℕ) (s : Store)
    → let ready = create_if_absent to amount s in
      let target = free_balance to ready + amount in
      ((relay_transfer sender to amount s).1 ≡ ready)
      ⊎ ((relay_transfer sender to amount s).1
          ≡ deposit_event
              (Event.transferred sender to target 0)
              (set_free_balance to target ready).0)
unfolding relay_transfer
relay_transfer-shape sender to amount s = ground arith

pub relay_transfer-IsLive :
    (sender to amount : ℕ) (s : Store) → IsLive s → IsLive (relay_transfer sender to amount s).1
relay_transfer-IsLive sender to amount s live =
    let made = create_if_absent-IsLive to amount s live in
    elim (relay_transfer-shape sender to amount s) [
      | inl e ↦ subst IsLive (sym e) made
      | inr e ↦
          subst IsLive (sym e) (deposit_event-IsLive _ _ (set_free_balance-IsLive to _ _ made))
    ]
