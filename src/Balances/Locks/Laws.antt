-- ===== src/Balances/Locks/Laws.antt =====
-- What a lock restricts once it is set, extended or removed.
use yeeroot.Prelude.{ℕ, ◌≡◌, ◌⊎◌, refl, true, some, List, [], ◌∷◌, arith}
use yeeroot.Storage.{StorageMap, ℕ_key, lookup-write_self}
use yeeroot.Balances.State.{
  Store, BalanceLock, WithdrawReason, WithdrawReasons, locks_of, ok, vesting_balance, free_balance,
}
use yeeroot.Balances.Currency.{lock_allows, all_locks_allow, ensure_can_withdraw}
use yeeroot.Balances.Locks.Replaced.{
  with_id, with_id-replace_some, with_id-without_lock, replace_some-allows, without_lock-allows,
}
use yeeroot.Balances.Locks.{
  replace_lock, set_lock, extended, extend_lock, without_lock, remove_lock,
}

pub locks_of-set_lock :
    (id who amount until : ℕ) (reasons : WithdrawReasons) (s : Store)
    → locks_of who (set_lock id who amount until reasons s)
      ≡ replace_lock
          (λ l nl. nl)
          s.sharding.block_number
          id
          (some (record { id = id; amount = amount; until = until; reasons = reasons }))
          (locks_of who s)
unfolding locks_of set_lock
locks_of-set_lock id who amount until reasons s = rw lookup-write_self

-- After `set_lock` the account has exactly one lock with the id, the new one.
pub set_lock_unique :
    (id who amount until : ℕ) (reasons : WithdrawReasons) (s : Store)
    → with_id id (locks_of who (set_lock id who amount until reasons s))
      ≡ record { id = id; amount = amount; until = until; reasons = reasons } ∷ []
set_lock_unique id who amount until reasons s =
    rw locks_of-set_lock (with_id-replace_some s.sharding.block_number id _ (locks_of who s) refl)

locks_of-extend_lock :
    (id who amount until : ℕ) (reasons : WithdrawReasons) (s : Store)
    → locks_of who (extend_lock id who amount until reasons s)
      ≡ replace_lock extended s.sharding.block_number id
          (some (record { id = id; amount = amount; until = until; reasons = reasons }))
          (locks_of who s)
unfolding locks_of extend_lock
locks_of-extend_lock id who amount until reasons s = rw lookup-write_self

locks_of-remove_lock :
    (id who : ℕ) (s : Store)
    → locks_of who (remove_lock id who s) ≡ without_lock s.sharding.block_number id (locks_of who s)
unfolding locks_of remove_lock
locks_of-remove_lock id who s = rw lookup-write_self

-- `ensure_can_withdraw` by the vesting part and the locks.
pub ensure_can_withdraw-ok :
    (who amount : ℕ) (reason : WithdrawReason) (balance : ℕ) (s : Store)
    → (ensure_can_withdraw who amount reason balance s).0 ≡ ok tt
    → all_locks_allow s.sharding.block_number balance reason (locks_of who s) ≡ true
unfolding ensure_can_withdraw
ensure_can_withdraw-ok who amount reason balance s h = ground arith

ensure_can_withdraw-relocked :
    (who amount : ℕ) (reason : WithdrawReason) (balance : ℕ) (s : Store)
    (locks : StorageMap ℕ (List BalanceLock))
    → (ensure_can_withdraw who amount reason balance (record s { locks = locks })).0 ≡ ok tt
    → all_locks_allow s.sharding.block_number balance reason (locks_of who s) ≡ true
    → (ensure_can_withdraw who amount reason balance s).0 ≡ ok tt
unfolding ensure_can_withdraw vesting_balance free_balance
ensure_can_withdraw-relocked who amount reason balance s locks h allowed = ground arith

ensure_can_withdraw-relocked_back :
    (who amount : ℕ) (reason : WithdrawReason) (balance : ℕ) (s : Store)
    (locks : StorageMap ℕ (List BalanceLock))
    → (ensure_can_withdraw who amount reason balance s).0 ≡ ok tt
    → all_locks_allow s.sharding.block_number balance reason
        (locks_of who (record s { locks = locks }))
      ≡ true
    → (ensure_can_withdraw who amount reason balance (record s { locks = locks })).0 ≡ ok tt
unfolding ensure_can_withdraw vesting_balance free_balance
ensure_can_withdraw-relocked_back who amount reason balance s locks h allowed = ground arith

-- Extending a lock never loosens: where the account had at most one lock with the id, a withdrawal
-- that the extended locks let pass was let pass before, and the given lock lets it pass.
pub extend_lock-tightens :
    (id who amount until : ℕ) (reasons : WithdrawReasons) (s : Store) (old : BalanceLock)
    (value balance : ℕ) (reason : WithdrawReason)
    → (with_id id (locks_of who s) ≡ []) ⊎ (with_id id (locks_of who s) ≡ old ∷ [])
    → (ensure_can_withdraw who value reason balance (extend_lock id who amount until reasons s)).0
      ≡ ok tt
    → ((ensure_can_withdraw who value reason balance s).0 ≡ ok tt)
      × (lock_allows s.sharding.block_number balance reason
            (record { id = id; amount = amount; until = until; reasons = reasons })
          ≡ true)
extend_lock-tightens id who amount until reasons s old value balance reason single h =
    let new : BalanceLock = record { id = id; amount = amount; until = until; reasons = reasons } in
    let after : Store = extend_lock id who amount until reasons s in
    let pass = ensure_can_withdraw-ok who value reason balance after h in
    let (before, given) =
      replace_some-allows s.sharding.block_number balance reason id new old (locks_of who s) single
        (rw (← locks_of-extend_lock id who amount until reasons s) (unfold extend_lock in pass)) in
    (
      ensure_can_withdraw-relocked who value reason balance s after.locks (unfold extend_lock in h)
          before,
      given,
    )

-- `remove_lock` removes the locks with the id, and lets a withdrawal pass that passed before.
pub remove_lock-loosens :
    (id who : ℕ) (s : Store) (value balance : ℕ) (reason : WithdrawReason)
    → (ensure_can_withdraw who value reason balance s).0 ≡ ok tt
    → (with_id id (locks_of who (remove_lock id who s)) ≡ [])
      × ((ensure_can_withdraw who value reason balance (remove_lock id who s)).0 ≡ ok tt)
unfolding remove_lock
remove_lock-loosens id who s value balance reason h =
    let now = s.sharding.block_number in
    let before = ensure_can_withdraw-ok who value reason balance s h in
    let after = without_lock-allows now balance reason id (locks_of who s) before in
    (
      rw locks_of-remove_lock (with_id-without_lock now id (locks_of who s)),
      ensure_can_withdraw-relocked_back who value reason balance s (remove_lock id who s).locks h
          (rw (← locks_of-remove_lock id who s) at after),
    )
