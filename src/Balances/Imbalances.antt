-- ===== src/Balances/Imbalances.antt =====
-- The module `imbalances` of srml/yee-balances/src/lib.rs: tokens for funds that were created or
-- destroyed and are not yet accounted for. `PositiveImbalance` and `NegativeImbalance` have the
-- same methods, so `Imbalance` has one definition for both; dropping a token squares up the total
-- issuance.
use yeeroot.Prelude.{ℕ, ◌+◌, ◌-◌, ◌≤◌, ◌<◌, ◌≡◌, min, arith, leb, if◌then◌else◌}
use yeeroot.Balances.State.{Store, balance_mod}
use yeeroot.Balances.Account.{drop_negative, drop_positive}

pub data Imbalance : Type 0 where
  positive negative : ℕ → Imbalance

-- What `drop_zero`, `split`, `merge` and `peek` do with the amount inside a token.
unfoldable pub saturating_add : ℕ → ℕ → ℕ
saturating_add a b = min (a + b) (balance_mod - 1)

unfoldable pub split : ℕ → ℕ → ℕ × ℕ
split amount part = let first = min amount part in (first, amount - first)

unfoldable pub merge : ℕ → ℕ → ℕ
merge a b = saturating_add a b

-- `offset` of a positive token by a negative one.
unfoldable pub offset : ℕ → ℕ → Imbalance
offset a b = if leb b a then positive (a - b) else negative (b - a)

unfoldable pub drop : Imbalance → Store → Store
drop (positive a) s = drop_positive a s
drop (negative a) s = drop_negative a s

-- Splitting and merging: the parts of a token merge to it, and the first is what was asked for, as
-- far as it goes.
pub merge-split :
    (amount part : ℕ)
    → amount < balance_mod
    → (merge (split amount part).0 (split amount part).1 ≡ amount) × ((split amount part).0 ≤ part)
unfolding merge split saturating_add
merge-split amount part fits = (omega arith, omega arith)

-- Dropping what is left of a positive token that was offset by a negative one squares up the total
-- issuance as dropping both does, if the issuance covers the negative one and has room for the
-- positive one.
pub drop-offset :
    (a b : ℕ) (s : Store)
    → b ≤ s.total_issuance
    → s.total_issuance + a < balance_mod
    → drop (offset a b) s ≡ drop (negative b) (drop (positive a) s)
unfolding drop offset drop_positive drop_negative
drop-offset a b s covers room = ground arith

-- Dropping the parts of a split negative token is dropping the token.
pub drop-split :
    (amount part : ℕ) (s : Store)
    → drop (negative (split amount part).1) (drop (negative (split amount part).0) s)
      ≡ drop (negative amount) s
unfolding drop split drop_negative
drop-split amount part s = ground arith
