-- ===== src/Balances/Locks/Lasting.antt =====
-- What the lock that `set_lock` sets restricts in later blocks.
use yeeroot.Prelude.{
  ℕ, ◌<◌, ◌≤◌, ◌≡◌, ◌≢◌, Bool, true, false, Option, none, some, List, [], ◌∷◌, ◌&&◌, ◌||◌, arith,
  leb, ◌==◌, ==_iff, sym, subst, or_default, refl,
}
use yeeroot.Storage.{ℕ_key, write, lookup, lookup-write}
use yeeroot.Balances.State.{Store, BalanceLock, WithdrawReason, WithdrawReasons, locks_of, ok}
use yeeroot.Balances.Currency.{lock_allows, all_locks_allow, ensure_can_withdraw}
use yeeroot.Balances.Locks.Laws.{locks_of-set_lock, ensure_can_withdraw-ok}
use yeeroot.Balances.Locks.{replace_lock, set_lock, extend_lock, without_lock, remove_lock}

-- What happens to the locks of an account other than by a call that names the lock: an operation that
-- writes no locks, in the same block or a later one, or a call on a lock with another id or of
-- another account.
pub data Step (id who : ℕ) (s : Store) : Store → Type 0 where
  elsewhere :
      (t : Store)
      → t.locks ≡ s.locks
      → s.sharding.block_number ≤ t.sharding.block_number
      → Step id who s t
  sets :
      (other account amount until : ℕ) (reasons : WithdrawReasons)
      → ((other == id) && (account == who)) ≡ false
      → Step id who s (set_lock other account amount until reasons s)
  extends :
      (other account amount until : ℕ) (reasons : WithdrawReasons)
      → ((other == id) && (account == who)) ≡ false
      → Step id who s (extend_lock other account amount until reasons s)
  removes :
      (other account : ℕ)
      → ((other == id) && (account == who)) ≡ false
      → Step id who s (remove_lock other account s)

pub data Reach (id who : ℕ) (s : Store) : Store → Type 0 where
  here : Reach id who s s
  then_step : (t u : Store) → Reach id who s t → Step id who t u → Reach id who s u

-- Whether one of the locks has the id and end, and restricts a withdrawal for the reason that
-- leaves less than the amount.
module _ (id amount until : ℕ) (reason : WithdrawReason) where
  unfoldable covers : BalanceLock → Bool
  covers l = (l.id == id) && (leb amount l.amount && (leb until l.until && l.reasons reason))

  unfoldable any_covers : List BalanceLock → Bool
  any_covers [] = false
  any_covers (l ∷ ls) = covers l || any_covers ls

  any_covers-replace_lock :
      (update : BalanceLock → BalanceLock → BalanceLock) (now other : ℕ) (o : Option BalanceLock)
      (ls : List BalanceLock)
      → (other == id) ≡ false
      → now < until
      → any_covers ls ≡ true
      → any_covers (replace_lock update now other o ls) ≡ true
  unfolding any_covers covers replace_lock
  any_covers-replace_lock update now other o [] differs lasts h = absurd (ground arith)
  any_covers-replace_lock update now other o (l ∷ ls) differs lasts h = ground (
    arith,
    any_covers-replace_lock update now other o ls differs lasts,
    any_covers-replace_lock update now other none ls differs lasts,
    ==_iff l.id other,
  )

  any_covers-without_lock :
      (now other : ℕ) (ls : List BalanceLock)
      → (other == id) ≡ false
      → now < until
      → any_covers ls ≡ true
      → any_covers (without_lock now other ls) ≡ true
  unfolding any_covers covers without_lock
  any_covers-without_lock now other [] differs lasts h = absurd (ground arith)
  any_covers-without_lock now other (l ∷ ls) differs lasts h =
      ground (arith, any_covers-without_lock now other ls differs lasts)

  any_covers-set :
      (now : ℕ) (new : BalanceLock) (ls : List BalanceLock)
      → covers new ≡ true
      → new.id ≡ id
      → any_covers (replace_lock (λ l nl. nl) now id (some new) ls) ≡ true
  unfolding any_covers covers replace_lock
  any_covers-set now new [] good same = ground arith
  any_covers-set now new (l ∷ ls) good same = ground (arith, any_covers-set now new ls good same)

  any_covers-refuses :
      (now balance : ℕ) (ls : List BalanceLock)
      → now < until
      → balance < amount
      → any_covers ls ≡ true
      → all_locks_allow now balance reason ls ≡ false
  unfolding any_covers covers all_locks_allow lock_allows
  any_covers-refuses now balance [] lasts less h = absurd (ground arith)
  any_covers-refuses now balance (l ∷ ls) lasts less h =
      ground (arith, any_covers-refuses now balance ls lasts less)

written_lasts :
    (id who amount until : ℕ) (reason : WithdrawReason) (account : ℕ) (ls : List BalanceLock)
    (s : Store)
    → ((account == who) ≡ true → any_covers id amount until reason ls ≡ true)
    → any_covers id amount until reason (locks_of who s) ≡ true
    → any_covers id amount until reason
        (locks_of who (record s { locks = write account (some ls) s.locks }))
      ≡ true
unfolding locks_of
written_lasts id who amount until reason account ls s written h =
    rw lookup-write (ground (arith, written, ==_iff who account, ==_iff account who))

Step-lasts :
    (id who amount until : ℕ) (reason : WithdrawReason) (s t : Store)
    → Step id who s t
    → t.sharding.block_number < until
    → any_covers id amount until reason (locks_of who s) ≡ true
    → any_covers id amount until reason (locks_of who t) ≡ true
unfolding set_lock extend_lock remove_lock locks_of
Step-lasts id who amount until reason s _ (elsewhere t same later) lasts h =
    subst (λ m. any_covers id amount until reason (or_default [] (lookup who m)) ≡ true) (sym same)
      (unfold locks_of in h)
Step-lasts id who amount until reason s _ (sets other account value end reasons apart) lasts h =
    written_lasts id who amount until reason account _ s
      (λ same.
        let own : account ≡ who = (==_iff account who).0 same in
        let differs : (other == id) ≡ false = ground arith in
        any_covers-replace_lock id amount until reason _ s.sharding.block_number other _
          (locks_of account s) differs lasts (rw own h))
      h
Step-lasts id who amount until reason s _ (extends other account value end reasons apart) lasts h =
    written_lasts id who amount until reason account _ s
      (λ same.
        let own : account ≡ who = (==_iff account who).0 same in
        let differs : (other == id) ≡ false = ground arith in
        any_covers-replace_lock id amount until reason _ s.sharding.block_number other _
          (locks_of account s) differs lasts (rw own h))
      h
Step-lasts id who amount until reason s _ (removes other account apart) lasts h =
    written_lasts id who amount until reason account _ s
      (λ same.
        let own : account ≡ who = (==_iff account who).0 same in
        let differs : (other == id) ≡ false = ground arith in
        any_covers-without_lock id amount until reason s.sharding.block_number other
          (locks_of account s) differs lasts (rw own h))
      h

Step-later :
    (id who : ℕ) (s t : Store) → Step id who s t → s.sharding.block_number ≤ t.sharding.block_number
unfolding set_lock extend_lock remove_lock
Step-later id who s _ (elsewhere t same later) = later
Step-later id who s _ (sets other account value end reasons apart) = omega arith
Step-later id who s _ (extends other account value end reasons apart) = omega arith
Step-later id who s _ (removes other account apart) = omega arith

Reach-lasts :
    (id who amount until : ℕ) (reason : WithdrawReason) (s t : Store)
    → Reach id who s t
    → t.sharding.block_number < until
    → any_covers id amount until reason (locks_of who s) ≡ true
    → any_covers id amount until reason (locks_of who t) ≡ true
Reach-lasts id who amount until reason s _ here lasts h = h
Reach-lasts id who amount until reason s u (then_step t _ before last) lasts h =
    Step-lasts id who amount until reason t u last lasts (
      Reach-lasts id who amount until reason s t before (omega (arith, Step-later id who t u last))
        h)

new_lock_covers :
    (id amount until : ℕ) (reasons : WithdrawReasons) (reason : WithdrawReason)
    → reasons reason ≡ true
    → covers id amount until reason
        (record { id = id; amount = amount; until = until; reasons = reasons })
      ≡ true
unfolding covers
new_lock_covers id amount until reasons reason named = ground (arith, ==_iff id id)

-- While the lock that `set_lock` sets lasts, no withdrawal for one of its reasons that leaves less
-- than its amount passes: in every state that is reached from there in a block before the lock's end,
-- by operations that write no locks and calls on locks with other ids or of other accounts.
pub set_lock-restricts :
    (id who amount until : ℕ) (reasons : WithdrawReasons) (s t : Store) (value balance : ℕ)
    (reason : WithdrawReason)
    → Reach id who (set_lock id who amount until reasons s) t
    → t.sharding.block_number < until
    → reasons reason ≡ true
    → balance < amount
    → (ensure_can_withdraw who value reason balance t).0 ≢ ok tt
set_lock-restricts id who amount until reasons s t value balance reason reached lasts named less h =
    let new : BalanceLock = record { id = id; amount = amount; until = until; reasons = reasons } in
    let set =
      any_covers-set id amount until reason s.sharding.block_number new (locks_of who s)
        (new_lock_covers id amount until reasons reason named) refl in
    let kept =
      Reach-lasts id who amount until reason _ t reached lasts (rw locks_of-set_lock set) in
    let refused =
      any_covers-refuses id amount until reason t.sharding.block_number balance (locks_of who t)
        lasts less kept in
    ground (arith, refused, ensure_can_withdraw-ok who value reason balance t h)
