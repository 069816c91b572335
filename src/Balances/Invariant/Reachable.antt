-- ===== src/Balances/Invariant/Reachable.antt =====
-- srml/yee-balances/src/lib.rs: every operation of the module as a step of its storage, the storages
-- that the steps reach, and the invariant on them.
use yeeroot.Prelude.{ℕ, ◌-◌, ◌≡◌, ◌⊎◌, inl, inr, refl, sym, subst, List, Bool-cases, arith, ◌==◌}
use yeeroot.Sharding.ScaleOut.{Sharding}
use yeeroot.Storage.{ℕ_key}
use yeeroot.Balances.State.{
  Store, WithdrawReason, WithdrawReasons, ExistenceRequirement, free_balance, total_balance,
}
use yeeroot.Balances.Currency.{
  transfer, withdraw, slash, deposit_into_existing, make_free_balance_be, deposit_creating,
  make_payment, set_balance, relay_transfer,
}
use yeeroot.Balances.Currency.Transfers.{ensure_can_withdraw-same}
use yeeroot.Balances.Reserve.{
  move_to_reserved, reserve, unreserve, slash_reserved, repatriate_reserved,
}
use yeeroot.Balances.Locks.{set_lock, extend_lock, remove_lock}
use yeeroot.Balances.Invariant.Keeps.{
  IsLive, IsLive-same, set_free_balance-IsLive, set_reserved_balance-IsLive,
}
use yeeroot.Balances.Invariant.Steps.{
  transfer-IsLive, withdraw-IsLive, make_payment-IsLive, slash-IsLive, deposit_into_existing-IsLive,
  make_free_balance_be-IsLive, deposit_creating-IsLive, set_balance-IsLive, relay_transfer-IsLive,
}

reserve-shape :
    (who value : ℕ) (s : Store)
    → ((reserve who value s).1 ≡ s)
      ⊎ ((reserve who value s).1 ≡ move_to_reserved who value (free_balance who s - value) s)
unfolding reserve
reserve-shape who value s = ground (
  arith,
  ensure_can_withdraw-same who value WithdrawReason.reserve (free_balance who s - value) s,
)

move_to_reserved-IsLive :
    (who value rest : ℕ) (s : Store) → IsLive s → IsLive (move_to_reserved who value rest s)
unfolding move_to_reserved
move_to_reserved-IsLive who value rest s live =
    set_free_balance-IsLive who rest _ (set_reserved_balance-IsLive who _ s live)

reserve-IsLive : (who value : ℕ) (s : Store) → IsLive s → IsLive (reserve who value s).1
reserve-IsLive who value s live = elim (reserve-shape who value s) [
  | inl e ↦ subst IsLive (sym e) live
  | inr e ↦
      subst IsLive (sym e) (move_to_reserved-IsLive who value (free_balance who s - value) s live)
]

unreserve-IsLive : (who value : ℕ) (s : Store) → IsLive s → IsLive (unreserve who value s).1
unfolding unreserve
unreserve-IsLive who value s live =
    set_reserved_balance-IsLive who _ _ (set_free_balance-IsLive who _ s live)

slash_reserved-IsLive :
    (who value : ℕ) (s : Store) → IsLive s → IsLive (slash_reserved who value s).1
unfolding slash_reserved
slash_reserved-IsLive who value s live = set_reserved_balance-IsLive who _ s live

repatriate_reserved-IsLive :
    (slashed beneficiary value : ℕ) (s : Store)
    → IsLive s
    → IsLive (repatriate_reserved slashed beneficiary value s).1
unfolding repatriate_reserved
repatriate_reserved-IsLive slashed beneficiary value s live =
    elim (Bool-cases (total_balance beneficiary s == 0)) [
      | inl e ↦ rw e live
      | inr e ↦
          rw e
            (set_reserved_balance-IsLive slashed _ _ (set_free_balance-IsLive beneficiary _ s live))
    ]

set_lock-IsLive :
    (id who amount until : ℕ) (reasons : WithdrawReasons) (s : Store)
    → IsLive s
    → IsLive (set_lock id who amount until reasons s)
unfolding set_lock
set_lock-IsLive id who amount until reasons s = IsLive-same s _ refl refl refl

extend_lock-IsLive :
    (id who amount until : ℕ) (reasons : WithdrawReasons) (s : Store)
    → IsLive s
    → IsLive (extend_lock id who amount until reasons s)
unfolding extend_lock
extend_lock-IsLive id who amount until reasons s = IsLive-same s _ refl refl refl

remove_lock-IsLive : (id who : ℕ) (s : Store) → IsLive s → IsLive (remove_lock id who s)
unfolding remove_lock
remove_lock-IsLive id who s = IsLive-same s _ refl refl refl

-- One call into the module, with any arguments and any outcome, or the next block. `encode` is the
-- codec's encoding of an account.
pub data Step (encode : ℕ → List ℕ) (s : Store) : Store → Type 0 where
  transfers : (a b value : ℕ) → Step encode s (transfer encode a b value s).1
  relays : (a b amount : ℕ) → Step encode s (relay_transfer a b amount s).1
  withdraws :
      (who value : ℕ) (reason : WithdrawReason) (liveness : ExistenceRequirement)
      → Step encode s (withdraw who value reason liveness s).1
  pays : (who len : ℕ) → Step encode s (make_payment who len s).1
  slashes : (who value : ℕ) → Step encode s (slash who value s).1
  deposits : (who value : ℕ) → Step encode s (deposit_into_existing who value s).1
  creates : (who value : ℕ) → Step encode s (deposit_creating who value s).1
  makes : (who value : ℕ) → Step encode s (make_free_balance_be who value s).1
  sets : (who free reserved : ℕ) → Step encode s (set_balance who free reserved s)
  reserves : (who value : ℕ) → Step encode s (reserve who value s).1
  unreserves : (who value : ℕ) → Step encode s (unreserve who value s).1
  slashes_reserved : (who value : ℕ) → Step encode s (slash_reserved who value s).1
  repatriates : (a b value : ℕ) → Step encode s (repatriate_reserved a b value s).1
  locks :
      (id who amount until : ℕ) (reasons : WithdrawReasons)
      → Step encode s (set_lock id who amount until reasons s)
  extends :
      (id who amount until : ℕ) (reasons : WithdrawReasons)
      → Step encode s (extend_lock id who amount until reasons s)
  unlocks : (id who : ℕ) → Step encode s (remove_lock id who s)
  next_block : (sharding : Sharding) → Step encode s (record s { sharding = sharding })

-- What a sequence of steps reaches.
pub data Reach (encode : ℕ → List ℕ) (s : Store) : Store → Type 0 where
  here : Reach encode s s
  then_step : (t u : Store) → Reach encode s t → Step encode t u → Reach encode s u

Step-IsLive : (encode : ℕ → List ℕ) (s t : Store) → Step encode s t → IsLive s → IsLive t
Step-IsLive encode s _ (transfers a b value) = transfer-IsLive encode a b value s
Step-IsLive encode s _ (relays a b amount) = relay_transfer-IsLive a b amount s
Step-IsLive encode s _ (withdraws who value reason liveness) =
    withdraw-IsLive who value reason liveness s
Step-IsLive encode s _ (pays who len) = make_payment-IsLive who len s
Step-IsLive encode s _ (slashes who value) = slash-IsLive who value s
Step-IsLive encode s _ (deposits who value) = deposit_into_existing-IsLive who value s
Step-IsLive encode s _ (creates who value) = deposit_creating-IsLive who value s
Step-IsLive encode s _ (makes who value) = make_free_balance_be-IsLive who value s
Step-IsLive encode s _ (sets who free reserved) = set_balance-IsLive who free reserved s
Step-IsLive encode s _ (reserves who value) = reserve-IsLive who value s
Step-IsLive encode s _ (unreserves who value) = unreserve-IsLive who value s
Step-IsLive encode s _ (slashes_reserved who value) = slash_reserved-IsLive who value s
Step-IsLive encode s _ (repatriates a b value) = repatriate_reserved-IsLive a b value s
Step-IsLive encode s _ (locks id who amount until reasons) =
    set_lock-IsLive id who amount until reasons s
Step-IsLive encode s _ (extends id who amount until reasons) =
    extend_lock-IsLive id who amount until reasons s
Step-IsLive encode s _ (unlocks id who) = remove_lock-IsLive id who s
Step-IsLive encode s _ (next_block sharding) = IsLive-same s _ refl refl refl

-- Whatever calls are made, in whatever order and however they end, every free or reserved balance
-- that is stored is at least the existential deposit, if it was so before them.
pub Reach-IsLive : (encode : ℕ → List ℕ) (s t : Store) → Reach encode s t → IsLive s → IsLive t
Reach-IsLive encode s _ here live = live
Reach-IsLive encode s u (then_step t _ before last) live =
    Step-IsLive encode t u last (Reach-IsLive encode s t before live)
