-- ===== src/Pow/Target/Adjustment.antt =====
-- The target between and at the adjustments.
use native.Mathlib.Nat.{mul-mod_left, mul-le-mul_left, div-mul-le_self, lt-div-mul-add}
use yeeroot.Prelude.{
  ℕ, suc, ◌+◌, ◌-◌, ◌*◌, ◌/◌, ◌%◌, ◌^◌, ◌<◌, ◌≤◌, ◌≡◌, ◌≢◌, sym, ap, ◌∙◌, subst, some, arith,
}
use yeeroot.Pow.{Digests, Header, PowSeal}
use yeeroot.Pow.Outcome.{ok}
use yeeroot.Pow.Target.{
  Context, Client, adjusted, expected_gap, header_seal, retarget, calc_at, calc_pow_target,
}

adjusted-fits :
    (context : Context) (old e gap : ℕ)
    → 0 < e
    → old / e * gap < 2 ^ 256
    → adjusted context old e gap ≡ ok (old / e * gap)
unfolding adjusted
adjusted-fits context old e gap pos fits = ground arith

number_back : (n adj : ℕ) → adj ≤ n → n < 2 ^ 64 → (n + 2 ^ 64 - adj) % 2 ^ 64 ≡ n - adj
number_back n adj h fits = omega arith

on_schedule :
    (k adj : ℕ)
    → 0 < adj
    → suc k * adj + 1 < 2 ^ 64
    → (suc k * adj + 1 + 2 ^ 64 - 1) % 2 ^ 64 % adj ≡ 0
on_schedule k adj pos fits =
    let m : ℕ = suc k * adj in
    let back : (m + 1 + 2 ^ 64 - 1) % 2 ^ 64 ≡ m = omega arith in
    ap (λ x. x % adj) back ∙ mul-mod_left (suc k) adj

scaled_bounds :
    (old e gap : ℕ)
    → 0 < e
    → (old / e * gap * e ≤ old * gap) × (old * gap ≤ old / e * gap * e + e * gap)
scaled_bounds old e gap pos =
    let low = mul-le-mul_left gap (div-mul-le_self old e) in
    let high = mul-le-mul_left gap (lt-div-mul-add {a = old} {b = e} pos) in
    (omega (arith, low), omega (arith, high))

retarget-fits :
    (context : Context) (curr seal : PowSeal) (timestamp : ℕ)
    → 0 < expected_gap context
    → seal.timestamp ≤ timestamp
    → curr.pow_target / expected_gap context * (timestamp - seal.timestamp) < 2 ^ 256
    → retarget context (some curr) (some seal) timestamp
      ≡ ok (curr.pow_target / expected_gap context * (timestamp - seal.timestamp))
unfolding retarget
retarget-fits context curr seal timestamp pos later fits = ground (
  arith,
  adjusted-fits context curr.pow_target (expected_gap context) (timestamp - seal.timestamp) pos
      fits,
)

module _ {Item : Type 0} (d : Digests Item) (context : Context) (client : Client Item)
    (n timestamp : ℕ) (parent : Header Item) where
  calc_at-off :
      (curr : PowSeal)
      → header_seal d parent ≡ some curr
      → 1 < n
      → n < 2 ^ 64
      → 0 < context.genesis_pow_target_adj
      → (n - 1) % context.genesis_pow_target_adj ≢ 0
      → calc_at d context client n timestamp parent ≡ ok curr.pow_target
  unfolding calc_at
  calc_at-off curr sealed more fits pos off =
      let back : (n + 2 ^ 64 - 1) % 2 ^ 64 ≡ n - 1 = omega arith in
      rw back (ground (arith, sealed, off))

  calc_at-due :
      (ancestor : Header Item) (k : ℕ)
      → client.header_number (n - context.genesis_pow_target_adj) ≡ some ancestor
      → n ≡ suc k * context.genesis_pow_target_adj + 1
      → n < 2 ^ 64
      → 0 < context.genesis_pow_target_adj
      → calc_at d context client n timestamp parent
        ≡ retarget context (header_seal d parent) (header_seal d ancestor) timestamp
  unfolding calc_at
  calc_at-due ancestor k found at_k fits pos =
      let adj = context.genesis_pow_target_adj in
      let step : adj ≤ suc k * adj = omega arith in
      let due : (n + 2 ^ 64 - 1) % 2 ^ 64 % adj ≡ 0 =
        subst (λ m. (m + 2 ^ 64 - 1) % 2 ^ 64 % adj ≡ 0) (sym at_k)
          (on_schedule k adj pos (omega arith)) in
      let back : (n + 2 ^ 64 - adj) % 2 ^ 64 ≡ n - adj = number_back n adj (omega arith) fits in
      rw (back, found) (ground (arith, due, at_k))

module _ {Item : Type 0} (d : Digests Item) (context : Context) (client : Client Item)
    (header parent : Header Item) (known : client.header_at header.parent_hash ≡ some parent) where
  calc_pow_target-at :
      (timestamp : ℕ)
      → calc_pow_target d context client header timestamp
        ≡ calc_at d context client header.number timestamp parent
  unfolding calc_pow_target
  calc_pow_target-at timestamp = ground (arith, known)

  -- Off the adjustments a block has its parent's target.
  pub calc_pow_target-keeps :
      (curr : PowSeal) (timestamp : ℕ)
      → header_seal d parent ≡ some curr
      → 1 < header.number
      → header.number < 2 ^ 64
      → 0 < context.genesis_pow_target_adj
      → (header.number - 1) % context.genesis_pow_target_adj ≢ 0
      → calc_pow_target d context client header timestamp ≡ ok curr.pow_target
  calc_pow_target-keeps curr timestamp sealed more fits pos off =
      calc_pow_target-at timestamp
      ∙ calc_at-off d context client header.number timestamp parent curr sealed more fits pos off

  -- The block `k * adj + adj + 1`, whose number fits a `u64`: its target is the parent's, scaled by
  -- the time since block `k * adj + 1` over the time expected for `adj` blocks, and rounded down by
  -- at most the time. A scaled target that does not fit 256 bits is excluded.
  pub calc_pow_target-adjusts :
      (ancestor : Header Item) (curr seal : PowSeal) (timestamp k : ℕ)
      → client.header_number (header.number - context.genesis_pow_target_adj) ≡ some ancestor
      → header_seal d parent ≡ some curr
      → header_seal d ancestor ≡ some seal
      → header.number ≡ suc k * context.genesis_pow_target_adj + 1
      → header.number < 2 ^ 64
      → 0 < context.genesis_pow_target_adj
      → 0 < expected_gap context
      → seal.timestamp ≤ timestamp
      → curr.pow_target / expected_gap context * (timestamp - seal.timestamp) < 2 ^ 256
      → (t : ℕ) × (calc_pow_target d context client header timestamp ≡ ok t)
        × (t * expected_gap context ≤ curr.pow_target * (timestamp - seal.timestamp))
        × (curr.pow_target * (timestamp - seal.timestamp)
            ≤ t * expected_gap context + expected_gap context * (timestamp - seal.timestamp))
  calc_pow_target-adjusts ancestor curr seal timestamp k found sealed earlier at_k fits pos gap
        later room =
      let (low, high) =
        scaled_bounds curr.pow_target (expected_gap context) (timestamp - seal.timestamp) gap in
      (
        curr.pow_target / expected_gap context * (timestamp - seal.timestamp),
        calc_pow_target-at timestamp
            ∙ calc_at-due d context client header.number timestamp parent ancestor k found at_k fits
                pos
            ∙ rw (sealed, earlier) (retarget-fits context curr seal timestamp gap later room),
        low,
        high,
      )
