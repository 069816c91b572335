-- ===== src/Storage.antt =====
-- Runtime storage: a map as the list of its entries. A removed entry is kept as `none`, the way
-- the overlay of a block's changes keeps it, so that no law below needs distinct keys.
use yeeroot.Prelude.{
  ℕ, ◌+◌, ◌≤◌, ◌≡◌, ◌≢◌, ◌↔◌, Bool, true, List, [], ◌∷◌, Option, none, arith, ◌==◌, ==_iff,
  if◌then◌else◌, or_default,
}

-- Keys are compared and nothing else.
pub record Key {ℓ} (K : Type ℓ) : Type ℓ where
  pub beq : K → K → Bool
  pub beq_iff : (a b : K) → (beq a b ≡ true) ↔ (a ≡ b)

instance abbrev pub ℕ_key : Key ℕ
ℕ_key = record { beq = ◌==◌; beq_iff = ==_iff }

abbrev pub StorageMap {ℓ κ} : Type ℓ → Type κ → Type (ℓ ⊔ κ)
StorageMap K V = List (K × Option V)

module _ {ℓ κ} {K : Type ℓ} {V : Type κ} ⦃e : Key K⦄ where
  unfoldable pub lookup : K → StorageMap K V → Option V
  lookup k [] = none
  lookup k ((j, o) ∷ m) = if e.beq k j then o else lookup k m

  -- `insert` writes `some v` and `remove` writes `none`.
  unfoldable pub write : K → Option V → StorageMap K V → StorageMap K V
  write k o [] = (k, o) ∷ []
  write k o ((j, p) ∷ m) = if e.beq k j then (k, o) ∷ m else (j, p) ∷ write k o m

  pub lookup-write :
      (k j : K) (o : Option V) (m : StorageMap K V)
      → lookup j (write k o m) ≡ (if e.beq j k then o else lookup j m)
  unfolding lookup write
  lookup-write k j o [] = ground arith
  lookup-write k j o ((i, p) ∷ m) =
      ground (arith, e.beq_iff k i, e.beq_iff j k, e.beq_iff j i, lookup-write k j o m)

  pub lookup-write_self : (k : K) (o : Option V) (m : StorageMap K V) → lookup k (write k o m) ≡ o
  lookup-write_self k o m = ground (arith, lookup-write k k o m, e.beq_iff k k)

  -- Of two writes to one key the later one counts.
  pub write-write :
      (k : K) (o p : Option V) (m : StorageMap K V) → write k o (write k p m) ≡ write k o m
  unfolding write
  write-write k o p [] = ground (arith, e.beq_iff k k)
  write-write k o p ((j, q) ∷ m) = ground (arith, e.beq_iff k k, write-write k o p m)

-- The sum of the numbers that a map holds.
unfoldable pub total {ℓ} : {K : Type ℓ} → StorageMap K ℕ → ℕ
total [] = 0
total ((j, o) ∷ m) = or_default 0 o + total m

module _ {ℓ} {K : Type ℓ} ⦃e : Key K⦄ where
  -- A write moves the sum from the old entry to the new one, if the key's first entry counts.
  pub total-write :
      (k : K) (o : Option ℕ) (m : StorageMap K ℕ)
      → total (write k o m) + or_default 0 (lookup k m) ≡ total m + or_default 0 o
  unfolding total lookup write
  total-write k o [] = ground arith
  total-write k o ((j, p) ∷ m) = ground (arith, total-write k o m)

  pub lookup-le-total : (k : K) (m : StorageMap K ℕ) → or_default 0 (lookup k m) ≤ total m
  unfolding total lookup
  lookup-le-total k [] = omega arith
  lookup-le-total k ((j, p) ∷ m) = ground (arith, lookup-le-total k m)

  -- Two accounts together hold at most the sum.
  pub add-lookup-le-total :
      (k j : K) (m : StorageMap K ℕ)
      → e.beq k j ≢ true
      → or_default 0 (lookup k m) + or_default 0 (lookup j m) ≤ total m
  unfolding total lookup
  add-lookup-le-total k j [] h = omega arith
  add-lookup-le-total k j ((i, p) ∷ m) h = ground (
    arith,
    e.beq_iff k i,
    e.beq_iff j i,
    e.beq_iff k j,
    add-lookup-le-total k j m,
    lookup-le-total k m,
    lookup-le-total j m,
  )
