-- ===== src/Balances/Currency.antt =====
-- srml/yee-balances/src/lib.rs: `impl Currency` and `impl MakePayment`, the calls `transfer` and
-- `set_balance`, and `relay_transfer`, which credits a transfer that came from another shard.
pub mod Accounting
pub mod Transfers
pub mod Debits
pub mod Credits
use yeeroot.Prelude.{
  ℕ, ◌+◌, ◌-◌, ◌*◌, ◌%◌, Bool, true, false, not, ◌&&◌, ◌||◌, none, some, List, [], ◌∷◌, min, ltb,
  leb, ◌==◌, if◌then◌else◌, is_some,
}
use yeeroot.Storage.{ℕ_key, lookup}
use yeeroot.Sharding.ShardNum.{shard_num_for}
use yeeroot.Sharding.ScaleOut.{get_curr_shard, get_shard_count}
use yeeroot.Balances.State.{
  Store, balance_mod, WithdrawReason, ExistenceRequirement, keep_alive, allow_death,
  UpdateBalanceOutcome, updated, account_killed, BalanceLock, Event, free_balance, reserved_balance,
  total_balance, locks_of, checked_add, checked_sub, vesting_balance, Error, fee_overflow,
  balance_too_low, destination_too_high, vesting_too_high, liquidity_restricted, would_kill_account,
  too_few_free_funds, beneficiary_must_exist, Outcome, ok, err, panicked, Action, pure, raise, gets,
  modify, or_raise, expect, ◌>>=◌, ◌>>◌, deposit_event,
}
use yeeroot.Relay.{RelayTypes, Codec, decode_origin}
use yeeroot.Balances.Account.{drop_negative, new_account, set_free_balance, set_reserved_balance}

-- `OnFeeWithdrawn` of the pow module, srml/yee-pow/src/lib.rs.
unfoldable pub on_fee_withdrawn : ℕ → Store → Store
on_fee_withdrawn amount s = record s { total_fee = (s.total_fee + amount) % balance_mod }

-- The reasons for which vesting restricts a withdrawal.
unfoldable pub vesting_applies : WithdrawReason → Bool
vesting_applies WithdrawReason.reserve = true
vesting_applies WithdrawReason.transfer = true
vesting_applies _ = false

-- One lock lets a withdrawal pass: it has expired, or leaves enough, or is about other reasons.
unfoldable pub lock_allows : ℕ → ℕ → WithdrawReason → BalanceLock → Bool
lock_allows now new_balance reason l =
    leb l.until now || leb l.amount new_balance || not (l.reasons reason)

unfoldable pub all_locks_allow : ℕ → ℕ → WithdrawReason → List BalanceLock → Bool
all_locks_allow now new_balance reason [] = true
all_locks_allow now new_balance reason (l ∷ ls) =
    lock_allows now new_balance reason l && all_locks_allow now new_balance reason ls

unfoldable pub ensure_can_withdraw : ℕ → ℕ → WithdrawReason → ℕ → Action (Unit {0})
ensure_can_withdraw who amount reason new_balance s =
    if vesting_applies reason && ltb new_balance (vesting_balance who s)
    then (err vesting_too_high, s)
    else if all_locks_allow s.sharding.block_number new_balance reason (locks_of who s)
    then (ok tt, s)
    else (err liquidity_restricted, s)

-- The end of a transfer: the fee is paid and the event is left.
unfoldable pub charge_transfer : ℕ → ℕ → ℕ → ℕ → Store → Store
charge_transfer transactor dest value fee s =
    deposit_event (Event.transferred transactor dest value fee)
      (on_fee_withdrawn fee (drop_negative fee s))

-- To an account of another shard: only the sender's side is recorded here.
unfoldable pub transfer_across : ℕ → ℕ → ℕ → ℕ → ℕ → Store → Store
transfer_across transactor dest value fee new_from_balance s =
    charge_transfer transactor dest value fee (set_free_balance transactor new_from_balance s).0

unfoldable pub create_if_absent : ℕ → ℕ → Store → Store
create_if_absent who balance s =
    if is_some (lookup who s.free_balances) then s else new_account who balance s

-- To another account of this shard.
unfoldable pub transfer_within : ℕ → ℕ → ℕ → ℕ → ℕ → ℕ → Store → Store
transfer_within transactor dest value fee new_from_balance new_to_balance s =
    let paid = (set_free_balance transactor new_from_balance s).0 in
    charge_transfer transactor dest value fee
      (set_free_balance dest new_to_balance (create_if_absent dest new_to_balance paid)).0

-- The transfer once it is known to which shard `dest` belongs; to the own account nothing is done.
unfoldable pub transfer_checked : Bool → ℕ → ℕ → ℕ → ℕ → ℕ → ℕ → Action (Unit {0})
transfer_checked false transactor dest value fee new_from_balance to_balance =
    modify (transfer_across transactor dest value fee new_from_balance)
transfer_checked true transactor dest value fee new_from_balance to_balance = do
  new_to_balance ← or_raise (checked_add to_balance value) destination_too_high
  modify (λ s.
      if transactor == dest
      then s
      else transfer_within transactor dest value fee new_from_balance new_to_balance s)

-- `Currency::transfer`; `encode` is the codec's encoding of an account.
unfoldable pub transfer : (ℕ → List ℕ) → ℕ → ℕ → ℕ → Action (Unit {0})
transfer encode transactor dest value = do
  from_balance ← gets (free_balance transactor)
  fee ← gets (λ s. s.transfer_fee)
  liability ← or_raise (checked_add value fee) fee_overflow
  new_from_balance ← or_raise (checked_sub from_balance liability) balance_too_low
  ensure_can_withdraw transactor value WithdrawReason.transfer new_from_balance
  to_balance ← gets (free_balance dest)
  curr_shard ← gets (λ s. get_curr_shard s.sharding)
  shard_count ← gets (λ s. get_shard_count s.sharding)
  cn ← expect curr_shard
  c ← expect shard_count
  dn ← expect (shard_num_for encode dest c)
  transfer_checked (cn == dn) transactor dest value fee new_from_balance to_balance

-- `liveness == KeepAlive && new_balance < existential_deposit` is refused.
unfoldable pub deny_kill : ExistenceRequirement → ℕ → ℕ → Action (Unit {0})
deny_kill keep_alive new_balance deposit s =
    if ltb new_balance deposit then (err would_kill_account, s) else (ok tt, s)
deny_kill allow_death new_balance deposit s = (ok tt, s)

-- `Currency::withdraw`: the amount of the negative imbalance that is returned.
unfoldable pub withdraw : ℕ → ℕ → WithdrawReason → ExistenceRequirement → Action ℕ
withdraw who value reason liveness = do
  balance ← gets (free_balance who)
  new_balance ← or_raise (checked_sub balance value) too_few_free_funds
  deposit ← gets (λ s. s.existential_deposit)
  deny_kill liveness new_balance deposit
  ensure_can_withdraw who value reason new_balance
  modify (λ s. (set_free_balance who new_balance s).0)
  pure value

-- `Currency::slash`: the negative imbalance, and what could not be slashed.
unfoldable pub slash : ℕ → ℕ → Store → (ℕ × ℕ) × Store
slash who value s =
    let free = free_balance who s in
    let free_slash = min free value in
    let s' = (set_free_balance who (free - free_slash) s).0 in
    let remaining_slash = value - free_slash in
    let reserved = reserved_balance who s' in
    let reserved_slash = min reserved remaining_slash in
    if remaining_slash == 0 then ((value, 0), s') else (
      ((free_slash + reserved_slash) % balance_mod, remaining_slash - reserved_slash),
      (set_reserved_balance who (reserved - reserved_slash) s').0,
    )

-- `Currency::deposit_into_existing`: the positive imbalance.
unfoldable pub deposit_into_existing : ℕ → ℕ → Action ℕ
deposit_into_existing who value s =
    if total_balance who s == 0
    then (err beneficiary_must_exist, s)
    else (ok value, (set_free_balance who ((free_balance who s + value) % balance_mod) s).0)

pub data SignedImbalance : Type 0 where
  positive negative : ℕ → SignedImbalance

unfoldable pub make_free_balance_be :
    ℕ → ℕ → Store → (SignedImbalance × UpdateBalanceOutcome) × Store
make_free_balance_be who balance s =
    let original = free_balance who s in
    let imbalance =
      if leb original balance
      then positive (balance - original)
      else negative (original - balance) in
    if ltb balance s.existential_deposit && original == 0
    then ((positive 0, account_killed), s)
    else if ltb balance s.existential_deposit
    then ((imbalance, account_killed), (set_free_balance who balance s).0)
    else ((imbalance, updated), (set_free_balance who balance (create_if_absent who balance s)).0)

-- The positive imbalance; a negative one is dropped.
unfoldable pub take_positive : SignedImbalance → Store → ℕ × Store
take_positive (positive p) s = (p, s)
take_positive (negative n) s = (0, drop_negative n s)

unfoldable pub deposit_creating : ℕ → ℕ → Store → ℕ × Store
deposit_creating who value s =
    let (made, s') = make_free_balance_be who ((free_balance who s + value) % balance_mod) s in
    take_positive made.0 s'

-- `MakePayment::make_payment`; the runtime's `TransactionPayment` drops the imbalance.
unfoldable pub make_payment : ℕ → ℕ → Action (Unit {0})
make_payment transactor encoded_len = do
  fee ← gets (λ s. (s.transaction_base_fee + s.transaction_byte_fee * encoded_len) % balance_mod)
  imbalance ← withdraw transactor fee WithdrawReason.transaction_payment keep_alive
  modify (λ s. on_fee_withdrawn fee (drop_negative imbalance s))

-- The root call `set_balance`.
unfoldable pub set_balance : ℕ → ℕ → ℕ → Store → Store
set_balance who free reserved s =
    (set_reserved_balance who reserved (set_free_balance who free s).0).0

-- `relay_transfer`, once the relayed extrinsic is read into its sender, its receiver and its amount. The event carries the receiver's new balance, as the source has it.
unfoldable pub relay_transfer : ℕ → ℕ → ℕ → Action (Unit {0})
relay_transfer sender to amount = do
  modify (create_if_absent to amount)
  balance ← gets (free_balance to)
  to_balance ← or_raise (checked_add balance amount) destination_too_high
  modify (λ s. (set_free_balance to to_balance s).0)
  modify (deposit_event (Event.transferred sender to to_balance 0))

-- `relay_transfer` on bytes; `unwrap` panics on what does not decode.
unfoldable pub relay_encoded : Codec → List ℕ → Action (Unit {0})
relay_encoded codec input s = elim (decode_origin codec RelayTypes.balance input) [
  | none ↦ (panicked, s)
  | some tx ↦ relay_transfer tx.sender tx.dest tx.amount s
]
