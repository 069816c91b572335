-- ===== src/Balances/Locks.antt =====
-- srml/yee-balances/src/lib.rs: `impl LockableCurrency`.
pub mod Replaced
pub mod Laws
pub mod Lasting
use yeeroot.Prelude.{
  ℕ, max, Bool, not, ◌&&◌, ◌||◌, Option, none, some, List, [], ◌∷◌, ltb, ◌==◌, if◌then◌else◌,
}
use yeeroot.Storage.{ℕ_key, write}
use yeeroot.Balances.State.{Store, BalanceLock, WithdrawReasons, locks_of}

unfoldable pub option_list : {A : Type 0} → Option A → List A → List A
option_list none l = l
option_list (some a) l = a ∷ l

-- The `filter_map` of `set_lock` and `extend_lock` with the push that follows it. `new_lock` is
-- taken by the first lock with its id, and pushed at the end if no lock took it; `update` makes the
-- lock that replaces the old one.
unfoldable pub replace_lock :
    (BalanceLock → BalanceLock → BalanceLock)
    → ℕ
    → ℕ
    → Option BalanceLock
    → List BalanceLock
    → List BalanceLock
unfolding option_list
replace_lock update now id new_lock [] = option_list new_lock []
replace_lock update now id new_lock (l ∷ ls) =
    let rest = replace_lock update now id (if l.id == id then none else new_lock) ls in
    if l.id == id
    then elim new_lock [ some new ↦ update l new ∷ rest | none ↦ rest ]
    else if ltb now l.until
    then l ∷ rest
    else rest

unfoldable pub set_lock : ℕ → ℕ → ℕ → ℕ → WithdrawReasons → Store → Store
set_lock id who amount until reasons s =
    let new : BalanceLock = record { id = id; amount = amount; until = until; reasons = reasons } in
    let locks = replace_lock (λ l nl. nl) s.sharding.block_number id (some new) (locks_of who s) in
    record s { locks = write who (some locks) s.locks }

-- The larger amount, the later end and all reasons of two locks.
unfoldable pub extended : BalanceLock → BalanceLock → BalanceLock
extended l new = record {
  id = l.id;
  amount = max l.amount new.amount;
  until = max l.until new.until;
  reasons = λ r. l.reasons r || new.reasons r;
}

unfoldable pub extend_lock : ℕ → ℕ → ℕ → ℕ → WithdrawReasons → Store → Store
extend_lock id who amount until reasons s =
    let new : BalanceLock = record { id = id; amount = amount; until = until; reasons = reasons } in
    let locks = replace_lock extended s.sharding.block_number id (some new) (locks_of who s) in
    record s { locks = write who (some locks) s.locks }

unfoldable pub without_lock : ℕ → ℕ → List BalanceLock → List BalanceLock
without_lock now id [] = []
without_lock now id (l ∷ ls) =
    if ltb now l.until && not (l.id == id)
    then l ∷ without_lock now id ls
    else without_lock now id ls

unfoldable pub remove_lock : ℕ → ℕ → Store → Store
remove_lock id who s =
    let locks = without_lock s.sharding.block_number id (locks_of who s) in
    record s { locks = write who (some locks) s.locks }
