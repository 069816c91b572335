-- ===== src/Crfg/Authorities.antt =====
-- srml/yee-crfg/src/lib.rs: the runtime's authorities and the change that is pending. The storage
-- vector of authorities is the list of its items.
pub mod Rotation
use yeeroot.Prelude.{
  ℕ, suc, zero, ◌+◌, ◌-◌, ◌%◌, ◌^◌, Bool, Option, none, some, List, [], ◌∷◌, ◌++◌, ltb, leb, ◌==◌,
  if◌then◌else◌, length, drop,
}

-- `MAX_AUTHORITIES_SIZE` of core/crfg/primitives/src/lib.rs.
abbrev pub max_authorities_size : ℕ
max_authorities_size = 13

-- A signal has its delay first, a forced one the median before it.
pub data SignalLog : Type 0 where
  authorities_change_signal : ℕ → List (ℕ × ℕ) → SignalLog
  forced_authorities_change_signal : ℕ → ℕ → List (ℕ × ℕ) → SignalLog

pub record ScheduledChange : Type 0 where
  pub delay : ℕ
  pub next_authorities : List (ℕ × ℕ)

unfoldable pub as_signal : SignalLog → Option ScheduledChange
as_signal (authorities_change_signal delay next) =
    some (record { delay = delay; next_authorities = next })
as_signal (forced_authorities_change_signal median delay next) = none

unfoldable pub as_forced_signal : SignalLog → Option (ℕ × ScheduledChange)
as_forced_signal (authorities_change_signal delay next) = none
as_forced_signal (forced_authorities_change_signal median delay next) =
    some (median, record { delay = delay; next_authorities = next })

pub record StoredPendingChange : Type 0 where
  pub scheduled_at : ℕ
  pub delay : ℕ
  pub next_authorities : List (ℕ × ℕ)
  pub forced : Option ℕ

pub record Crfg : Type 0 where
  pub authorities : List (ℕ × ℕ)
  pub pending_change : Option StoredPendingChange
  pub signals : List SignalLog
  pub new_authorities_events : List (List (ℕ × ℕ))

-- `while authorities.len() >= MAX_AUTHORITIES_SIZE { authorities.remove(0); }`
unfoldable pub trim : List (ℕ × ℕ) → List (ℕ × ℕ)
trim [] = []
trim (a ∷ authorities) =
    if leb max_authorities_size (length (a ∷ authorities))
    then trim authorities
    else a ∷ authorities

-- `current_height` is the system module's `ChainContext`.
unfoldable pub update_authorities_inner : ℕ → ℕ → Crfg → Crfg
update_authorities_inner current_height info s = record s {
  pending_change = some (record {
    scheduled_at = current_height;
    delay = 0;
    next_authorities = trim s.authorities ++ (info, 1) ∷ [];
    forced = none;
  });
}

-- The call `update_authorities`; its first argument is the outcome of `ensure_inherent(origin)`.
unfoldable pub update_authorities : Bool → ℕ → ℕ → Crfg → Bool × Crfg
update_authorities inherent current_height info s =
    (inherent, if inherent then update_authorities_inner current_height info s else s)

-- The root call `force_update_authorities`.
unfoldable pub force_update_authorities : List (ℕ × ℕ) → ℕ → Crfg → Crfg
force_update_authorities authorities median s = record s {
  signals = s.signals ++ forced_authorities_change_signal median 0 authorities ∷ [];
}

unfoldable pub signal_of : StoredPendingChange → SignalLog
signal_of c = elim c.forced [
  | some median ↦ forced_authorities_change_signal median c.delay c.next_authorities
  | none ↦ authorities_change_signal c.delay c.next_authorities
]

unfoldable pub signal_change : ℕ → StoredPendingChange → Crfg → Crfg
signal_change block_number c s =
    if block_number == c.scheduled_at
    then record s { signals = s.signals ++ signal_of c ∷ [] }
    else s

unfoldable pub apply_change : ℕ → StoredPendingChange → Crfg → Crfg
apply_change block_number c s =
    if block_number == (c.scheduled_at + c.delay) % 2 ^ 64
    then record s {
      new_authorities_events = s.new_authorities_events ++ c.next_authorities ∷ [];
      authorities = c.next_authorities;
      pending_change = none;
    }
    else s

-- `finalize`, which `on_finalize` calls.
unfoldable pub finalize : ℕ → Crfg → Crfg
finalize block_number s = elim s.pending_change [
  | none ↦ s
  | some c ↦ apply_change block_number c (signal_change block_number c s)
]
