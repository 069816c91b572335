-- ===== src/Balances/Vesting.antt =====
-- srml/yee-balances/src/lib.rs: the vesting schedules that the genesis configuration builds, and what
-- a schedule locks at a block.
use native.Mathlib.Nat.{add-mul, mul-le-mul_right, mod-eq_of_lt, div-add-mod}
use yeeroot.Prelude.{ℕ, ◌+◌, ◌*◌, ◌/◌, ◌%◌, ◌≤◌, ◌<◌, ◌≡◌, max, arith, ◌^◌}
use yeeroot.Balances.State.{VestingSchedule, locked_at, balance_mod}

-- The schedule of an account with `balance`, from block `begin` on, over `length` blocks.
unfoldable pub genesis_schedule : ℕ → ℕ → ℕ → VestingSchedule
genesis_schedule balance begin length =
    let per_block = balance / max length 1 in
    record {
      offset = (begin * per_block % balance_mod + balance) % balance_mod;
      per_block = per_block;
    }

-- A schedule built at genesis, with numbers that do not overflow, locks at least the balance until
-- its begin.
pub genesis_schedule-before :
    (balance begin length n : ℕ)
    → (begin + length) * (balance / max length 1) + balance < 2 ^ 128
    → n ≤ begin
    → balance ≤ locked_at (genesis_schedule balance begin length) n
unfolding genesis_schedule locked_at
genesis_schedule-before balance begin length n fits early =
    let q : ℕ = balance / max length 1 in
    let split : (begin + length) * q ≡ begin * q + length * q = add-mul begin length q in
    let below : n * q ≤ begin * q = mul-le-mul_right q early in
    let wrap : begin * q % 2 ^ 128 ≡ begin * q = mod-eq_of_lt (omega arith) in
    let wraps : (begin * q + balance) % 2 ^ 128 ≡ begin * q + balance =
      mod-eq_of_lt (omega arith) in
    ground (arith, split, below, wrap, wraps)

-- A schedule built at genesis over at least one block, with numbers that do not overflow, still locks
-- at its end what the division by its length leaves over, which is the whole balance where the length
-- is greater.
pub genesis_schedule-remainder :
    (balance begin length : ℕ)
    → (begin + length) * (balance / max length 1) + balance < 2 ^ 128
    → 0 < length
    → locked_at (genesis_schedule balance begin length) (begin + length) ≡ balance % length
unfolding genesis_schedule locked_at
genesis_schedule-remainder balance begin length fits pos =
    let q : ℕ = balance / max length 1 in
    let whole : max length 1 ≡ length = omega arith in
    let parts : length * q + balance % length ≡ balance = rw whole (div-add-mod balance length) in
    let split : (begin + length) * q ≡ begin * q + length * q = add-mul begin length q in
    let wrap : begin * q % 2 ^ 128 ≡ begin * q = mod-eq_of_lt (omega arith) in
    let wraps : (begin * q + balance) % 2 ^ 128 ≡ begin * q + balance =
      mod-eq_of_lt (omega arith) in
    ground (arith, split, parts, wrap, wraps)
