-- ===== src/Balances/Locks/Replaced.antt =====
-- A list of locks after one of them is replaced or removed.
use yeeroot.Prelude.{
  ℕ, ◌≡◌, ◌⊎◌, refl, true, false, none, some, List, [], ◌∷◌, arith, ltb, ◌==◌, if◌then◌else◌,
}
use yeeroot.Balances.State.{BalanceLock, WithdrawReason}
use yeeroot.Balances.Currency.{lock_allows, all_locks_allow}
use yeeroot.Balances.Locks.{replace_lock, extended, without_lock}

-- The locks with an id.
abbrev pub with_id : ℕ → List BalanceLock → List BalanceLock
with_id id [] = []
with_id id (l ∷ ls) = if l.id == id then l ∷ with_id id ls else with_id id ls

with_id-replace_none :
    (update : BalanceLock → BalanceLock → BalanceLock) (now id : ℕ) (ls : List BalanceLock)
    → with_id id (replace_lock update now id none ls) ≡ []
unfolding replace_lock
with_id-replace_none update now id [] = refl
with_id-replace_none update now id (l ∷ ls) = ground (arith, with_id-replace_none update now id ls)

pub with_id-replace_some :
    (now id : ℕ) (new : BalanceLock) (ls : List BalanceLock)
    → new.id ≡ id
    → with_id id (replace_lock (λ l nl. nl) now id (some new) ls) ≡ new ∷ []
unfolding replace_lock
with_id-replace_some now id new [] same = ground arith
with_id-replace_some now id new (l ∷ ls) same =
    ground
      (arith, with_id-replace_some now id new ls same, with_id-replace_none (λ l nl. nl) now id ls)

-- Whether a list of locks restricts nothing more than another one does.
module _ (now balance : ℕ) (reason : WithdrawReason) where
  extended-allows :
      (l new : BalanceLock)
      → lock_allows now balance reason (extended l new) ≡ true
      → (lock_allows now balance reason l ≡ true) × (lock_allows now balance reason new ≡ true)
  unfolding lock_allows extended
  extended-allows l new h = (ground arith, ground arith)

  expired-allows :
      (l : BalanceLock) → ltb now l.until ≡ false → lock_allows now balance reason l ≡ true
  unfolding lock_allows
  expired-allows l h = ground arith

  replace_none-allows :
      (id : ℕ) (ls : List BalanceLock)
      → with_id id ls ≡ []
      → all_locks_allow now balance reason (replace_lock extended now id none ls) ≡ true
      → all_locks_allow now balance reason ls ≡ true
  unfolding replace_lock all_locks_allow
  replace_none-allows id [] single h = refl
  replace_none-allows id (l ∷ ls) single h =
      ground (arith, replace_none-allows id ls, expired-allows l)

  pub replace_some-allows :
      (id : ℕ) (new l0 : BalanceLock) (ls : List BalanceLock)
      → (with_id id ls ≡ []) ⊎ (with_id id ls ≡ l0 ∷ [])
      → all_locks_allow now balance reason (replace_lock extended now id (some new) ls) ≡ true
      → (all_locks_allow now balance reason ls ≡ true) × (lock_allows now balance reason new ≡ true)
  unfolding replace_lock all_locks_allow
  replace_some-allows id new l0 [] single h = (refl, ground arith)
  replace_some-allows id new l0 (l ∷ ls) single h = (
    ground (
      arith,
      replace_some-allows id new l0 ls,
      replace_none-allows id ls,
      expired-allows l,
      extended-allows l new,
    ),
    ground (arith, replace_some-allows id new l0 ls, extended-allows l new),
  )

  pub replaced-allows :
      (id : ℕ) (new : BalanceLock) (ls : List BalanceLock)
      → all_locks_allow now balance reason (replace_lock (λ l nl. nl) now id (some new) ls) ≡ true
      → lock_allows now balance reason new ≡ true
  unfolding replace_lock all_locks_allow
  replaced-allows id new [] h = ground arith
  replaced-allows id new (l ∷ ls) h = ground (arith, replaced-allows id new ls)

  pub without_lock-allows :
      (id : ℕ) (ls : List BalanceLock)
      → all_locks_allow now balance reason ls ≡ true
      → all_locks_allow now balance reason (without_lock now id ls) ≡ true
  unfolding without_lock all_locks_allow
  without_lock-allows id [] h = refl
  without_lock-allows id (l ∷ ls) h = ground (arith, without_lock-allows id ls)

pub with_id-without_lock :
    (now id : ℕ) (ls : List BalanceLock) → with_id id (without_lock now id ls) ≡ []
unfolding without_lock
with_id-without_lock now id [] = refl
with_id-without_lock now id (l ∷ ls) = ground (arith, with_id-without_lock now id ls)
