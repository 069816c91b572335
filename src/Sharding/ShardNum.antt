-- ===== src/Sharding/ShardNum.antt =====
-- core/sharding/primitives/src/utils.rs: the shard number of an encoded account. The numbers are
-- `u16`, written out modulo 65536; bytes are numbers.
pub mod Digits
pub mod Value
use Prim.Native.Nat.{bit_and}
use mathlib.Core.Option
use yeeroot.Prelude.{
  ℕ, zero, suc, ◌+◌, ◌-◌, ◌*◌, ◌/◌, ◌%◌, ◌^◌, Option, none, some, List, ltb, ◌==◌, if◌then◌else◌,
  length, get_or,
}

-- `while s > 0 { s = s >> 1; i = i + 1; }`, with the rounds that are left.
unfoldable pub log2_loop : ℕ → ℕ → ℕ → ℕ
log2_loop zero s i = i
log2_loop (suc rounds) s i =
    let rest = log2_loop rounds (s / 2) (i + 1) in if s == 0 then i else rest

-- A `u16` has sixteen binary digits, and each round drops one. `i - 1` wraps.
unfoldable pub log2 : ℕ → ℕ
log2 n = (log2_loop 16 n 0 + 65535) % 65536

-- `1u16 << n`, for a shift below 16.
unfoldable pub pow2 : ℕ → ℕ
pow2 n = 2 ^ n % 65536

unfoldable pub get_digits : ℕ → Option ℕ
get_digits shard_count =
    if shard_count == 0
    then none
    else (let digits = log2 shard_count in if pow2 digits == shard_count then some digits else none)

-- `!(!0u16 << digits)`
unfoldable pub mask : ℕ → ℕ
mask digits = 65535 - 65535 * 2 ^ digits % 65536

-- `u16::from_be_bytes([bytes[len-2], bytes[len-1]])`
unfoldable pub low_word : List ℕ → ℕ
low_word bytes = get_or bytes (length bytes - 2) 0 * 256 + get_or bytes (length bytes - 1) 0

unfoldable pub shard_num_for_bytes : List ℕ → ℕ → Option ℕ
shard_num_for_bytes bytes shard_count =
    if ltb (length bytes) 2
    then none
    else Option.map (λ digits. bit_and (low_word bytes) (mask digits)) (get_digits shard_count)

-- `encode` is the codec's encoding of the value into bytes.
unfoldable pub shard_num_for {ℓ} : {T : Type ℓ} → (T → List ℕ) → T → ℕ → Option ℕ
shard_num_for encode t shard_count = shard_num_for_bytes (encode t) shard_count
