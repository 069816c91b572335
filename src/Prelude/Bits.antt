-- ===== src/Prelude/Bits.antt =====
-- A mask of ones: `bit_and` with `2 ^ k - 1` is the remainder by `2 ^ k`, at every width.
use Prim.Native.Nat.{
  ℕ, zero, suc, ◌+◌, ◌-◌, ◌*◌, ◌/◌, ◌%◌, ◌^◌, ◌≤◌, ◌<◌, min, bit_and, digits, bit_and-bitwise,
}
use mathlib.Core.Path.{◌≡◌, ap, ◌∙◌}
use native.Mathlib.Omega.{arith}
use native.Mathlib.Nat.{
  two-pow-succ, one-le-pow, add-mul-mod_self_left, mod-eq_of_lt, mod-lt, div-add-mod, zero-mod,
}

-- The remainder by an even number, by its lowest binary digit and the rest.
pub mod_double : (a p : ℕ) → 0 < p → a % (p + p) ≡ 2 * (a / 2 % p) + a % 2
mod_double a p h =
    let r : ℕ = 2 * (a / 2 % p) + a % 2 in
    let split : a ≡ r + (p + p) * (a / 2 / p) = omega (arith, div-add-mod (a / 2) p) in
    let small : r < p + p = omega (arith, mod-lt (a / 2) h) in
    ap (λ t. t % (p + p)) split ∙ add-mul-mod_self_left r (p + p) (a / 2 / p) ∙ mod-eq_of_lt small

halved : (p : ℕ) → 0 < p → (p + p - 1) / 2 ≡ p - 1
halved p h = omega arith

-- One digit of the masked number at a time; `n` bounds how many digits there are.
masked_digits : (n k a : ℕ) → a ≤ n → digits (λ _. zero) min n a (2 ^ k - 1) ≡ a % 2 ^ k
masked_digits zero k zero h = omega (arith, zero-mod (2 ^ k))
masked_digits (suc n) k zero h = omega (arith, zero-mod (2 ^ k))
masked_digits zero k (suc a) h = absurd (omega arith)
masked_digits (suc n) zero (suc a) h = omega (arith, masked_digits n zero (suc a / 2) (omega arith))
masked_digits (suc n) (suc k) (suc a) h =
    let pos : 1 ≤ 2 ^ k = one-le-pow k 2 (omega arith) in
    let rest = ap (digits (λ _. zero) min n (suc a / 2)) (halved (2 ^ k) pos) in
    rw two-pow-succ (
      omega
        (arith, rest, masked_digits n k (suc a / 2) (omega arith), mod_double (suc a) (2 ^ k) pos))

pub bit_and-mask : (k a : ℕ) → bit_and a (2 ^ k - 1) ≡ a % 2 ^ k
bit_and-mask k a = bit_and-bitwise a (2 ^ k - 1) ∙ masked_digits a k a (omega arith)
