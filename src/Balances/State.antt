-- ===== src/Balances/State.antt =====
-- The storage of srml/yee-balances/src/lib.rs with what it reads and writes of other modules, and
-- the calls' outcomes. Accounts are compared only, so they are numbers; a balance is a `u128`, as
-- the runtime instantiates it, with its wrap-around written out.
use yeeroot.Prelude.{
  ◌≡◌, ◌⊎◌, inl, inr, refl, ℕ, ◌+◌, ◌-◌, ◌*◌, ◌%◌, ◌^◌, min, max, Bool, Option, none, some, List,
  [], ◌∷◌, ◌++◌, ltb, leb, if◌then◌else◌, or_default,
}
use yeeroot.Storage.{StorageMap, ℕ_key, lookup, total}
use yeeroot.Sharding.ScaleOut.{Sharding}

abbrev pub balance_mod : ℕ
balance_mod = 2 ^ 128

-- `WithdrawReason` of srml_support: the reasons that the module distinguishes, and any other one.
pub data WithdrawReason : Type 0 where
  transaction_payment transfer reserve other : WithdrawReason

-- A set of reasons, by its membership test.
abbrev pub WithdrawReasons : Type 0
WithdrawReasons = WithdrawReason → Bool

pub data ExistenceRequirement : Type 0 where
  keep_alive allow_death : ExistenceRequirement

pub data UpdateBalanceOutcome : Type 0 where
  updated account_killed : UpdateBalanceOutcome

pub record VestingSchedule : Type 0 where
  pub offset : ℕ
  pub per_block : ℕ

pub record BalanceLock : Type 0 where
  pub id : ℕ
  pub amount : ℕ
  pub until : ℕ
  pub reasons : WithdrawReasons

pub data Event : Type 0 where
  new_account : ℕ → ℕ → Event
  reaped_account : ℕ → Event
  transferred : ℕ → ℕ → ℕ → ℕ → Event

-- The calls of `T::OnNewAccount` and `T::OnFreeBalanceZero`, whose code is elsewhere.
pub data Hook : Type 0 where
  on_new_account : ℕ → Hook
  on_free_balance_zero : ℕ → Hook

pub record Store : Type 0 where
  pub total_issuance : ℕ
  pub existential_deposit : ℕ
  pub transfer_fee : ℕ
  pub creation_fee : ℕ
  pub transaction_base_fee : ℕ
  pub transaction_byte_fee : ℕ
  pub vesting : StorageMap ℕ VestingSchedule
  pub free_balances : StorageMap ℕ ℕ
  pub reserved_balances : StorageMap ℕ ℕ
  pub locks : StorageMap ℕ (List BalanceLock)
  -- `system::AccountNonce`, the events and the hooks called, the shard and the block number, and
  -- `TotalFee` of the pow module, which `OnFeeWithdrawn` adds to.
  pub account_nonces : StorageMap ℕ ℕ
  pub events : List Event
  pub hooks : List Hook
  pub sharding : Sharding
  pub total_fee : ℕ

unfoldable pub free_balance : ℕ → Store → ℕ
free_balance who s = or_default 0 (lookup who s.free_balances)

unfoldable pub reserved_balance : ℕ → Store → ℕ
reserved_balance who s = or_default 0 (lookup who s.reserved_balances)

-- `free + reserved` on `u128`.
unfoldable pub total_balance : ℕ → Store → ℕ
total_balance who s = (free_balance who s + reserved_balance who s) % balance_mod

-- All that the accounts hold.
unfoldable pub held : Store → ℕ
held s = total s.free_balances + total s.reserved_balances

unfoldable pub locks_of : ℕ → Store → List BalanceLock
locks_of who s = or_default [] (lookup who s.locks)

abbrev pub checked_add : ℕ → ℕ → Option ℕ
checked_add a b = if ltb (a + b) balance_mod then some (a + b) else none

abbrev pub checked_sub : ℕ → ℕ → Option ℕ
checked_sub a b = if leb b a then some (a - b) else none

-- The amount that is still locked at block `n`; a product that overflows locks nothing.
unfoldable pub locked_at : VestingSchedule → ℕ → ℕ
locked_at v n =
    if ltb (n * v.per_block) balance_mod
    then max v.offset (n * v.per_block) - n * v.per_block
    else 0

unfoldable pub vesting_balance : ℕ → Store → ℕ
vesting_balance who s = elim (lookup who s.vesting) [
  | some v ↦ min (free_balance who s) (locked_at v s.sharding.block_number)
  | none ↦ 0
]

pub data Error : Type 0 where
  fee_overflow balance_too_low destination_too_high vesting_too_high liquidity_restricted : Error
  would_kill_account too_few_free_funds beneficiary_must_exist not_enough_free_funds : Error

-- `panicked` is a failed `expect`.
pub data Outcome {ℓ} (A : Type ℓ) : Type ℓ where
  ok : A → Outcome A
  err : Error → Outcome A
  panicked : Outcome A

pub Outcome-cases {ℓ} :
    {A : Type ℓ} (r : Outcome A)
    → ((a : A) × (r ≡ ok a)) ⊎ (((e : Error) × (r ≡ err e)) ⊎ (r ≡ panicked))
Outcome-cases (ok a) = inl (a, refl)
Outcome-cases (err e) = inr (inl (e, refl))
Outcome-cases panicked = inr (inr refl)

-- The storage comes back after an error too: what was written stays written.
abbrev pub Action : Type 0 → Type 0
Action A = Store → Outcome A × Store

abbrev pub pure : {A : Type 0} → A → Action A
pure a s = (ok a, s)

abbrev pub raise : {A : Type 0} → Error → Action A
raise e s = (err e, s)

abbrev pub gets : {A : Type 0} → (Store → A) → Action A
gets f s = (ok (f s), s)

abbrev pub modify : (Store → Store) → Action (Unit {0})
modify f s = (ok tt, f s)

abbrev pub or_raise : {A : Type 0} → Option A → Error → Action A
or_raise none e s = (err e, s)
or_raise (some a) e s = (ok a, s)

abbrev pub expect : {A : Type 0} → Option A → Action A
expect none s = (panicked, s)
expect (some a) s = (ok a, s)

infixl 5 ◌>>=◌ ◌>>◌
abbrev pub ◌>>=◌ : {A B : Type 0} → Action A → (A → Action B) → Action B
◌>>=◌ m f s =
    let (r, s') = m s in elim r [ ok a ↦ f a s' | err e ↦ (err e, s') | panicked ↦ (panicked, s') ]

abbrev pub ◌>>◌ : {A B : Type 0} → Action A → Action B → Action B
m >> k = m >>= λ _. k

unfoldable pub deposit_event : Event → Store → Store
deposit_event e s = record s { events = s.events ++ e ∷ [] }
