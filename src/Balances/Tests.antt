-- ===== src/Balances/Tests.antt =====
-- The theorems on balances at concrete accounts: 2 and 4 belong to shard 0, and 3 to shard 1.
use yeeroot.Prelude.{
  ℕ, ◌+◌, ◌-◌, ◌/◌, ◌%◌, ◌≤◌, ◌≡◌, ◌≢◌, refl, true, none, some, List, [], ◌∷◌, arith, ◌==◌,
  if◌then◌else◌,
}
use yeeroot.Storage.{ℕ_key, lookup, write, total}
use yeeroot.Sharding.ShardNum.{
  shard_num_for, shard_num_for_bytes, get_digits, log2, log2_loop, pow2, mask, low_word,
}
use yeeroot.Sharding.ScaleOut.{Sharding, get_curr_shard, get_shard_count}
use yeeroot.Balances.State.{
  Store, WithdrawReason, keep_alive, free_balance, held, locks_of, vesting_balance, deposit_event,
  ok,
}
use yeeroot.Balances.Account.{new_account}
use yeeroot.Balances.Currency.{
  vesting_applies, lock_allows, all_locks_allow, ensure_can_withdraw, create_if_absent,
  transfer_checked, transfer, deny_kill, withdraw, slash, relay_transfer,
}
use yeeroot.Balances.Currency.Accounting.{stored}
use yeeroot.Balances.Currency.Transfers.{
  transfer_atomic, transfer-settled_local, transfer_moves, relay_transfer-balances,
}
use yeeroot.Balances.Locks.{set_lock, extend_lock, replace_lock, option_list, remove_lock}
use yeeroot.Balances.Locks.Replaced.{with_id}
use yeeroot.Balances.Locks.Lasting.{set_lock-restricts}
use yeeroot.Balances.Locks.Lasting as Locked
use yeeroot.Balances.Invariant.Keeps.{IsLive}
use yeeroot.Balances.Invariant.Reachable.{Step, Reach, Reach-IsLive}

abbrev two_bytes : ℕ → List ℕ
two_bytes n = n / 256 % 256 ∷ n % 256 ∷ []

abbrev shard_of : ℕ → Sharding
shard_of n = record {
  genesis_sharding_count = 2;
  scale_out_observe_blocks = 3;
  current_shard_info = some (record { num = n; count = 2; scale_out = none });
  current_scale_out_phase = none;
  block_number = 7;
  logs = [];
}

abbrev purse : ℕ → Store
purse n = record {
  total_issuance = 1600;
  existential_deposit = 10;
  transfer_fee = 5;
  creation_fee = 0;
  transaction_base_fee = 2;
  transaction_byte_fee = 1;
  vesting = [];
  free_balances = (2, some 1000) ∷ (4, some 500) ∷ [];
  reserved_balances = (2, some 100) ∷ [];
  locks = [];
  account_nonces = [];
  events = [];
  hooks = [];
  sharding = shard_of n;
  total_fee = 0;
}

purse-settled : (n : ℕ) → (purse n).total_issuance ≡ held (purse n)
unfolding held total
purse-settled n = refl

shards :
    (get_curr_shard (shard_of 0) ≡ some 0)
    × (get_shard_count (shard_of 0) ≡ some 2)
    × (shard_num_for two_bytes 4 2 ≡ some 0)
    × (shard_num_for two_bytes 3 2 ≡ some 1)
    × (shard_num_for two_bytes 2 2 ≡ some 0)
unfolding get_curr_shard get_shard_count shard_num_for shard_num_for_bytes get_digits log2 log2_loop
    pow2 mask low_word
shards = (refl, refl, refl, refl, refl)

sent_here : (transfer two_bytes 2 4 100 (purse 0)).0 ≡ ok tt
unfolding transfer transfer_checked ensure_can_withdraw vesting_applies all_locks_allow locks_of
    vesting_balance free_balance lookup get_curr_shard get_shard_count shard_num_for
    shard_num_for_bytes get_digits log2 log2_loop pow2 mask low_word
sent_here = refl

sent_away : (transfer two_bytes 2 3 100 (purse 0)).0 ≡ ok tt
unfolding transfer transfer_checked ensure_can_withdraw vesting_applies all_locks_allow locks_of
    vesting_balance free_balance lookup get_curr_shard get_shard_count shard_num_for
    shard_num_for_bytes get_digits log2 log2_loop pow2 mask low_word
sent_away = refl

relayed : (relay_transfer 2 3 100 (purse 1)).0 ≡ ok tt
unfolding relay_transfer create_if_absent new_account deposit_event free_balance lookup
relayed = refl

sent_too_much : (transfer two_bytes 2 4 2000 (purse 0)).0 ≢ ok tt
unfolding transfer transfer_checked ensure_can_withdraw vesting_applies all_locks_allow locks_of
    vesting_balance free_balance lookup
sent_too_much = ground arith

transfer_atomic_example : (transfer two_bytes 2 4 2000 (purse 0)).1 ≡ purse 0
transfer_atomic_example = transfer_atomic two_bytes 2 4 2000 (purse 0) sent_too_much

transfer-settled_local_example :
    (transfer two_bytes 2 4 100 (purse 0)).1.total_issuance
    ≡ held (transfer two_bytes 2 4 100 (purse 0)).1
transfer-settled_local_example =
    transfer-settled_local two_bytes 2 4 100 (purse 0) 0 2 shards.0 shards.1 shards.2
      (purse-settled 0)

transfer_moves_example :
    (100 + 5 ≤ free_balance 2 (purse 0))
    × (free_balance 4 (transfer two_bytes 2 4 100 (purse 0)).1 ≡ (
        if 4 == 2
        then stored 10 (free_balance 2 (purse 0) - (100 + 5))
        else if 4 == 4
        then stored 10 (free_balance 4 (purse 0) + 100)
        else free_balance 4 (purse 0)))
transfer_moves_example =
    transfer_moves two_bytes 2 4 100 (purse 0) 0 2 4 shards.0 shards.1 shards.2 (ground arith)
      sent_here

relay_transfer-balances_example :
    (transfer two_bytes 2 3 100 (purse 0)).1.total_issuance
      + (relay_transfer 2 3 100 (purse 1)).1.total_issuance
    ≡ held (transfer two_bytes 2 3 100 (purse 0)).1 + held (relay_transfer 2 3 100 (purse 1)).1
relay_transfer-balances_example =
    relay_transfer-balances two_bytes 2 3 100 1 0 2 (purse 0) (purse 1) shards.0 shards.1 shards.3
      (ground arith) (purse-settled 0) (purse-settled 1) (omega arith) sent_away relayed

withdrawn : (withdraw 2 300 WithdrawReason.other keep_alive (purse 0)).0 ≡ ok 300
unfolding withdraw deny_kill ensure_can_withdraw vesting_applies all_locks_allow locks_of
    free_balance lookup
withdrawn = refl

-- The store after the lock is set in block 7, and in block 8 after another lock is set and removed.
abbrev locked_purse : Store
locked_purse = set_lock 1 2 800 9 (λ r. true) (purse 0)

abbrev next_day : Store
next_day = record locked_purse { sharding = record locked_purse.sharding { block_number = 8 } }

abbrev day_after_calls : Store
day_after_calls = remove_lock 4 2 (set_lock 4 2 50 30 (λ r. true) next_day)

day_later : Locked.Reach 1 2 locked_purse day_after_calls
unfolding set_lock
day_later =
    Locked.Reach.then_step (set_lock 4 2 50 30 (λ r. true) next_day) _
      (Locked.Reach.then_step next_day _
        (Locked.Reach.then_step locked_purse _ Locked.Reach.here
          (Locked.Step.elsewhere next_day refl (omega arith)))
        (Locked.Step.sets 4 2 50 30 (λ r. true) refl))
      (Locked.Step.removes 4 2 refl)

set_lock-restricts_example :
    (ensure_can_withdraw 2 100 WithdrawReason.other 700 day_after_calls).0 ≢ ok tt
unfolding set_lock remove_lock
set_lock-restricts_example =
    set_lock-restricts 1 2 800 9 (λ r. true) (purse 0) day_after_calls 100 700 WithdrawReason.other
      day_later (omega arith) refl (omega arith)

lock_passes : (ensure_can_withdraw 2 100 WithdrawReason.other 900 (purse 0)).0 ≡ ok tt
unfolding ensure_can_withdraw vesting_applies all_locks_allow locks_of lookup
lock_passes = refl

extended_passes :
    (ensure_can_withdraw 2 100 WithdrawReason.other 900
      (extend_lock 1 2 800 9 (λ r. true) (purse 0))).0
    ≡ ok tt
unfolding ensure_can_withdraw vesting_applies all_locks_allow lock_allows locks_of extend_lock
    replace_lock option_list lookup write
extended_passes = refl

no_locks : with_id 1 (locks_of 2 (purse 0)) ≡ []
unfolding locks_of lookup
no_locks = refl

purse-IsLive : (n : ℕ) → IsLive (purse n)
unfolding lookup
purse-IsLive n = record { live_free = λ j v h. ground arith; live_reserved = λ j v h. ground arith }

Reach-IsLive_example : IsLive (slash 2 1050 (transfer two_bytes 2 4 100 (purse 0)).1).1
Reach-IsLive_example =
    Reach-IsLive two_bytes (purse 0) (slash 2 1050 (transfer two_bytes 2 4 100 (purse 0)).1).1
      (Reach.then_step (transfer two_bytes 2 4 100 (purse 0)).1 _
        (Reach.then_step (purse 0) _ Reach.here (Step.transfers 2 4 100)) (Step.slashes 2 1050))
      (purse-IsLive 0)
