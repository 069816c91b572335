-- ===== src/Sharding/ShardNum/Digits.antt =====
-- The binary digits of the number of shards: `log2`, `get_digits` and the mask.
use native.Mathlib.Nat.{one-le-pow, pow-le-pow_right, two-pow-succ}
use native.Mathlib.Decide.{dec_lt}
use yeeroot.Prelude.{
  ℕ, zero, suc, ◌+◌, ◌-◌, ◌/◌, ◌^◌, ◌≤◌, ◌<◌, ◌≡◌, inl, inr, refl, ap, some, arith, ◌==◌,
  Bool-cases,
}
use yeeroot.Sharding.ShardNum.{log2_loop, log2, pow2, get_digits, mask}

log2_loop-step :
    (rounds s i : ℕ) → 0 < s → log2_loop (suc rounds) s i ≡ log2_loop rounds (s / 2) (i + 1)
unfolding log2_loop
log2_loop-step rounds s i pos = ground arith

log2_loop-zero : (rounds i : ℕ) → log2_loop rounds 0 i ≡ i
unfolding log2_loop
log2_loop-zero zero i = refl
log2_loop-zero (suc rounds) i = refl

-- Enough rounds: the loop counts the binary digits.
log2_loop_bounds :
    (rounds s i : ℕ)
    → 0 < s
    → s < 2 ^ rounds
    → (d : ℕ) × (log2_loop rounds s i ≡ i + d + 1)
      × (2 ^ d ≤ s)
      × (s < 2 ^ d + 2 ^ d)
      × (d < rounds)
log2_loop_bounds zero s i pos lt = absurd (omega arith)
log2_loop_bounds (suc rounds) s i pos lt = elim (Bool-cases (s / 2 == 0)) [
  | inl last ↦
      let half : s / 2 ≡ 0 = ground arith in
      (
        0,
        rw (log2_loop-step rounds s i pos, half, log2_loop-zero) (omega arith),
        omega arith,
        omega arith,
        omega arith,
      )
  | inr more ↦
      let (d, e, low, high, small) =
        log2_loop_bounds rounds (s / 2) (i + 1) (ground arith)
          (omega (arith, two-pow-succ rounds)) in
      (
        suc d,
        rw (log2_loop-step rounds s i pos, e) (omega arith),
        omega (arith, two-pow-succ d),
        omega (arith, two-pow-succ d),
        omega arith,
      )
]

-- For a nonzero `u16` the result is the position of the highest binary digit.
pub log2_bounds :
    (n : ℕ) → 0 < n → n < 65536 → (2 ^ log2 n ≤ n) × (n < 2 ^ log2 n + 2 ^ log2 n) × (log2 n < 16)
unfolding log2
log2_bounds n pos lt =
    let (d, e, low, high, small) = log2_loop_bounds 16 n 0 pos lt in
    let exact : log2 n ≡ d = omega (arith, e) in rw exact (low, high, small)

-- Two powers of two that enclose one number are equal.
pow_unique : (c d : ℕ) → 2 ^ d ≤ 2 ^ c → 2 ^ c < 2 ^ d + 2 ^ d → d ≡ c
pow_unique zero zero h k = refl
pow_unique zero (suc d) h k = absurd (omega (arith, two-pow-succ d, one-le-pow d 2 (omega arith)))
pow_unique (suc c) zero h k = absurd (omega (arith, two-pow-succ c, one-le-pow c 2 (omega arith)))
pow_unique (suc c) (suc d) h k = ap suc (
    pow_unique c d (omega (arith, two-pow-succ c, two-pow-succ d))
      (omega (arith, two-pow-succ c, two-pow-succ d)))

pow-lt-u16 : (d : ℕ) → d < 16 → 2 ^ d ≤ 32768
pow-lt-u16 d h = pow-le-pow_right {n = 2} (omega arith) {i = d} {j = 15} (omega arith)

pub get_digits-pow : (d : ℕ) → d < 16 → get_digits (2 ^ d) ≡ some d
unfolding get_digits pow2
get_digits-pow d h =
    let pos = one-le-pow d 2 (omega arith) in
    let small = pow-lt-u16 d h in
    let (low, high, _) = log2_bounds (2 ^ d) pos (omega arith) in
    let exact : log2 (2 ^ d) ≡ d = pow_unique d (log2 (2 ^ d)) low high in rw exact (ground arith)

-- Only a power of two has digits.
pub get_digits-eq-some : (c d : ℕ) → c < 65536 → get_digits c ≡ some d → (c ≡ 2 ^ d) × (d < 16)
unfolding get_digits pow2
get_digits-eq-some c d lt h = ground (arith, log2_bounds c, pow-lt-u16 (log2 c))

-- Below half of the range the exponent is below 15.
pub half_range : (d : ℕ) → 2 ^ d < 32768 → suc d < 16
half_range d h = elim (dec_lt (suc d) 16) [
  | yes p ↦ p
  | no p ↦
      absurd (omega (arith, pow-le-pow_right {n = 2} (omega arith) {i = 15} {j = d} (omega arith)))
]

pub mask-pow : (d : ℕ) → d < 16 → mask d ≡ 2 ^ d - 1
unfolding mask
mask-pow d h = omega (arith, pow-lt-u16 d h, one-le-pow d 2 (omega arith))
