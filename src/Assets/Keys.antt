-- ===== src/Assets/Keys.antt =====
-- srml/yee-assets/src/lib.rs: the key of `Balances`, a shard code, an asset's id and an account.
use yeeroot.Prelude.{ℕ, ◌≡◌, ◌↔◌, Bool, true, false, ◌&&◌, List, [], ◌∷◌, ◌==◌, arith}
use yeeroot.Storage.{Key}

unfoldable pub bytes_eq : List ℕ → List ℕ → Bool
bytes_eq [] [] = true
bytes_eq [] (y ∷ ys) = false
bytes_eq (x ∷ xs) [] = false
bytes_eq (x ∷ xs) (y ∷ ys) = (x == y) && bytes_eq xs ys

pub bytes_eq_iff : (xs ys : List ℕ) → (bytes_eq xs ys ≡ true) ↔ (xs ≡ ys)
unfolding bytes_eq
bytes_eq_iff [] [] = ground arith
bytes_eq_iff [] (y ∷ ys) = ground arith
bytes_eq_iff (x ∷ xs) [] = ground arith
bytes_eq_iff (x ∷ xs) (y ∷ ys) = ground (arith, bytes_eq_iff xs ys)

pub data Holding : Type 0 where
  holding : List ℕ → ℕ → ℕ → Holding

unfoldable pub holding_eq : Holding → Holding → Bool
holding_eq (holding c i a) (holding d j b) = bytes_eq c d && ((i == j) && (a == b))

pub holding_eq_iff : (h k : Holding) → (holding_eq h k ≡ true) ↔ (h ≡ k)
unfolding holding_eq
holding_eq_iff (holding c i a) (holding d j b) = ground (arith, bytes_eq_iff c d)

instance abbrev pub Holding_key : Key Holding
Holding_key = record { beq = holding_eq; beq_iff = holding_eq_iff }
