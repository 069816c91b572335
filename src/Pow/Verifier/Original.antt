-- ===== src/Pow/Verifier/Original.antt =====
-- The shard that a node's shard descends from.
use native.Mathlib.Nat.{two-pow-succ, one-le-pow, pow-le-pow_right, mod-lt}
use yeeroot.Prelude.{
  ℕ, zero, suc, ◌+◌, ◌-◌, ◌/◌, ◌%◌, ◌^◌, ◌<◌, ◌≤◌, ◌≡◌, ap, ◌∙◌, inl, inr, some, List, leb,
  if◌then◌else◌, arith,
}
use yeeroot.Sharding.ShardNum.{shard_num_for_bytes}
use yeeroot.Sharding.ShardNum.Value.{
  mod_twice, be_value, shard_num_for_bytes-eq-value, shard_num_for_bytes-eq-some,
}
use yeeroot.Pow.Outcome.{ok}
use yeeroot.Pow.Verifier.{original_loop, get_original_shard_num}

halved_mod :
    (v p : ℕ) → 0 < p → (if leb p (v % (p + p)) then v % (p + p) - p else v % (p + p)) ≡ v % p
halved_mod v p pos = elim (mod_twice v p pos) [
  | inl low ↦ ground (arith, low, mod-lt v pos)
  | inr high ↦ ground (arith, high, mod-lt v pos)
]

half_double : (p : ℕ) → (p + p) / 2 ≡ p
half_double p = omega arith

original_loop-pow :
    (rounds e k v : ℕ)
    → k ≤ rounds
    → original_loop rounds (2 ^ e) (v % 2 ^ (k + e)) (2 ^ (k + e)) ≡ (v % 2 ^ e, 2 ^ e)
unfolding original_loop
original_loop-pow zero e zero v h = ap (λ d. (v % 2 ^ d, 2 ^ d)) (omega arith)
original_loop-pow (suc rounds) e zero v h = ground arith
original_loop-pow zero e (suc k) v h = absurd (omega arith)
original_loop-pow (suc rounds) e (suc k) v h =
    let p : ℕ = 2 ^ (k + e) in
    let pos : 0 < p = one-le-pow (k + e) 2 (omega arith) in
    let succ : suc k + e ≡ suc (k + e) = omega arith in
    let twice : 2 ^ (suc k + e) ≡ p + p =
      ap (λ m. 2 ^ m) succ ∙ omega (arith, two-pow-succ (k + e)) in
    let more : 2 ^ e ≤ p =
      pow-le-pow_right {n = 2} (omega arith) {i = e} {j = k + e} (omega arith) in
    rw (twice, half_double p, halved_mod v p pos)
      (ground (arith, original_loop-pow rounds e k v (omega arith)))

-- A node that runs shard n of the higher number of shards finds the shard of the lower number that
-- its accounts were on: an account that is on shard n of `2 ^ (k + e)` shards, fewer than 65536, is on
-- the shard that `get_original_shard_num` gives for `2 ^ e` shards.
pub get_original_shard_num-shard_num_for_bytes :
    (bytes : List ℕ) (k e n : ℕ)
    → k + e < 16
    → shard_num_for_bytes bytes (2 ^ (k + e)) ≡ some n
    → (m : ℕ) × (get_original_shard_num n (2 ^ (k + e)) (2 ^ e) ≡ ok m)
      × (shard_num_for_bytes bytes (2 ^ e) ≡ some m)
unfolding get_original_shard_num
get_original_shard_num-shard_num_for_bytes bytes k e n small found =
    let fits : 2 ^ (k + e) < 65536 =
      omega (arith, pow-le-pow_right {n = 2} (omega arith) {i = k + e} {j = 15} (omega arith)) in
    let (d, pow, ds, long, exact, below) =
      shard_num_for_bytes-eq-some bytes (2 ^ (k + e)) n fits found in
    (
      be_value 0 bytes % 2 ^ e,
      rw (exact, original_loop-pow 16 e k (be_value 0 bytes) (omega arith)) (ground arith),
      shard_num_for_bytes-eq-value bytes e long (omega arith),
    )
