-- ===== src/Sharding/ShardNum/Value.antt =====
-- The shard number is the account's big-endian value modulo the number of shards.
use native.Mathlib.Nat.{
  one-le-pow, two-pow-succ, add-mul-mod_self_left, mod-lt, div-add-mod, mod-eq_of_lt,
}
use yeeroot.Prelude.{
  ℕ, zero, suc, ◌+◌, ◌-◌, ◌*◌, ◌/◌, ◌%◌, ◌^◌, ◌≤◌, ◌<◌, ◌≡◌, ◌⊎◌, inl, inr, ap, ◌∙◌, sym, some,
  List, [], ◌∷◌, arith, ◌==◌, Bool-cases, Option-cases, length,
}
use yeeroot.Prelude.Bits.{bit_and-mask}
use yeeroot.Sharding.ShardNum.{get_digits, low_word, shard_num_for_bytes}
use yeeroot.Sharding.ShardNum.Digits.{get_digits-pow, get_digits-eq-some, half_range, mask-pow}

-- The value of the bytes, most significant first.
unfoldable pub be_value : ℕ → List ℕ → ℕ
be_value acc [] = acc
be_value acc (b ∷ bytes) = be_value (acc * 256 + b) bytes

sub_two :
    (n : ℕ)
    → (suc (suc (suc n)) - 2 ≡ suc (suc (suc n) - 2))
      × (suc (suc (suc n)) - 1 ≡ suc (suc (suc n) - 1))
sub_two n = (omega arith, omega arith)

-- All but the last two bytes count in multiples of 65536.
be_value-low_word :
    (acc : ℕ) (bytes : List ℕ)
    → 2 ≤ length bytes
    → (q : ℕ) × (be_value acc bytes ≡ low_word bytes + 65536 * q)
unfolding be_value low_word
be_value-low_word acc [] h = absurd (omega arith)
be_value-low_word acc (x ∷ []) h = absurd (omega arith)
be_value-low_word acc (x ∷ y ∷ []) h = (acc, omega arith)
be_value-low_word acc (x ∷ y ∷ z ∷ bytes) h =
    let (q, e) = be_value-low_word (acc * 256 + x) (y ∷ z ∷ bytes) (omega arith) in
    (q, rw ((sub_two (length bytes)).0, (sub_two (length bytes)).1) e)

-- A smaller power of two divides a larger one.
pow_split : (d n : ℕ) → d ≤ n → (k : ℕ) × (2 ^ n ≡ 2 ^ d * k)
pow_split zero n h = (2 ^ n, omega arith)
pow_split (suc d) zero h = absurd (omega arith)
pow_split (suc d) (suc n) h =
    let (k, e) = pow_split d n (omega arith) in
    (k, omega (arith, e, two-pow-succ n, two-pow-succ d, ap (λ (t : ℕ). t * k) (two-pow-succ d)))

low_word-mod :
    (bytes : List ℕ) (d : ℕ)
    → 2 ≤ length bytes
    → d < 16
    → low_word bytes % 2 ^ d ≡ be_value 0 bytes % 2 ^ d
low_word-mod bytes d long h =
    let (q, e) = be_value-low_word 0 bytes long in
    let (k, f) = pow_split d 16 (omega arith) in
    let g : be_value 0 bytes ≡ low_word bytes + 2 ^ d * (k * q) =
      omega (arith, e, ap (λ (t : ℕ). t * q) f) in
    rw g (sym (add-mul-mod_self_left (low_word bytes) (2 ^ d) (k * q)))

-- With 2 ^ d shards, d below 16, an encoding of two bytes or more belongs to the shard that is its
-- big-endian value modulo 2 ^ d.
pub shard_num_for_bytes-eq-value :
    (bytes : List ℕ) (d : ℕ)
    → 2 ≤ length bytes
    → d < 16
    → shard_num_for_bytes bytes (2 ^ d) ≡ some (be_value 0 bytes % 2 ^ d)
unfolding shard_num_for_bytes
shard_num_for_bytes-eq-value bytes d long h = ground (
  arith,
  get_digits-pow d h,
  mask-pow d h,
  bit_and-mask d (low_word bytes),
  low_word-mod bytes d long h,
)

-- With a number of shards of sixteen bits, one is found only if it is a power of two and for an encoding
-- of two bytes or more; it is the big-endian value modulo the number of shards, and below it.
pub shard_num_for_bytes-eq-some :
    (bytes : List ℕ) (c n : ℕ)
    → c < 65536
    → shard_num_for_bytes bytes c ≡ some n
    → (d : ℕ) × (c ≡ 2 ^ d) × (d < 16) × (2 ≤ length bytes) × (n ≡ be_value 0 bytes % c) × (n < c)
unfolding shard_num_for_bytes
shard_num_for_bytes-eq-some bytes c n lt h = elim (Option-cases (get_digits c)) [
  | inl e ↦ absurd (ground arith)
  | inr (d, e) ↦
      let (pow, small) = get_digits-eq-some c d lt e in
      let long : 2 ≤ length bytes = ground arith in
      let value = shard_num_for_bytes-eq-value bytes d long small in
      let exact : n ≡ be_value 0 bytes % c = rw pow (ground (arith, value)) in
      let pos : 0 < c = omega (arith, pow, one-le-pow d 2 (omega arith)) in
      (d, pow, small, long, exact, omega (arith, mod-lt (be_value 0 bytes) pos))
]

pub mod_twice : (v p : ℕ) → 0 < p → (v % (p + p) ≡ v % p) ⊎ (v % (p + p) ≡ v % p + p)
mod_twice v p h =
    let r : ℕ = v % p in
    let t : ℕ = v / p / 2 in
    let small : r < p = mod-lt v h in
    elim (Bool-cases (v / p % 2 == 0)) [
      | inl even ↦
          let q : v / p ≡ t + t = ground arith in
          let split : v ≡ r + (p + p) * t =
            omega (arith, div-add-mod v p, ap (λ (x : ℕ). p * x) q) in
          inl (
            ap (λ x. x % (p + p)) split
            ∙ add-mul-mod_self_left r (p + p) t
            ∙ mod-eq_of_lt (omega arith))
      | inr odd ↦
          let q : v / p ≡ t + t + 1 = ground arith in
          let split : v ≡ (r + p) + (p + p) * t =
            omega (arith, div-add-mod v p, ap (λ (x : ℕ). p * x) q) in
          inr (
            ap (λ x. x % (p + p)) split
            ∙ add-mul-mod_self_left (r + p) (p + p) t
            ∙ mod-eq_of_lt (omega arith))
    ]

-- When the number of shards `c`, below 32768, doubles, an account of shard n goes to shard n or to
-- shard n + c.
pub shard_num_for_bytes-double :
    (bytes : List ℕ) (c n : ℕ)
    → c < 32768
    → shard_num_for_bytes bytes c ≡ some n
    → (shard_num_for_bytes bytes (c + c) ≡ some n)
      ⊎ (shard_num_for_bytes bytes (c + c) ≡ some (n + c))
shard_num_for_bytes-double bytes c n lt h =
    let (d, pow, small, long, exact, below) =
      shard_num_for_bytes-eq-some bytes c n (omega arith) h in
    let twice : c + c ≡ 2 ^ suc d = omega (arith, pow, two-pow-succ d) in
    let room : suc d < 16 = half_range d (omega (arith, pow)) in
    let value : shard_num_for_bytes bytes (c + c) ≡ some (be_value 0 bytes % (c + c)) =
      rw twice (shard_num_for_bytes-eq-value bytes (suc d) long room) in
    elim (mod_twice (be_value 0 bytes) c (omega arith)) [ inl e ↦ inl (cc) | inr e ↦ inr (cc) ]
