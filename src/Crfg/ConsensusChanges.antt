-- ===== src/Crfg/ConsensusChanges.antt =====
-- core/crfg/src/consensus_changes.rs: the unfinalized changes of consensus data, by block number. A
-- hash is a number. `canonical_at_height` is the client's: an error is `none`.
pub mod Order
use yeeroot.Prelude.{
  ℕ, ◌+◌, suc, Bool, true, false, Option, none, some, List, [], ◌∷◌, ltb, leb, ◌==◌, if◌then◌else◌,
  drop,
}

-- `binary_search_by_key` on the number with `unwrap_or_else(|i| i)`, then `insert`: before the first
-- change whose number is not smaller. Of several equal numbers the search may find any; here it is
-- the first.
unfoldable pub note_change : ℕ × ℕ → List (ℕ × ℕ) → List (ℕ × ℕ)
note_change at [] = at ∷ []
note_change at (c ∷ cs) = if ltb c.0 at.0 then c ∷ note_change at cs else at ∷ c ∷ cs

-- One step of the fold: an error stays, `true` stays, else the canonical hash is asked for.
unfoldable pub fold_step : (ℕ → Option (Option ℕ)) → ℕ × ℕ → Option Bool → Option Bool
fold_step canonical at none = none
fold_step canonical at (some true) = some true
fold_step canonical at (some false) = elim (canonical at.0) [
  | none ↦ none
  | some none ↦ some false
  | some (some hash) ↦ some (at.1 == hash)
]

-- `take_while`, `enumerate` and the fold: the index of the last change taken, and what was found.
unfoldable pub split_loop :
    (ℕ → Option (Option ℕ)) → ℕ → List (ℕ × ℕ) → ℕ → Option ℕ → Option Bool → Option ℕ × Option Bool
split_loop canonical number [] i split found = (split, found)
split_loop canonical number (c ∷ cs) i split found =
    let rest = split_loop canonical number cs (suc i) (some i) (fold_step canonical c found) in
    if leb c.0 number then rest else (split, found)

-- `split_off(split_idx + 1)`, if a change was taken.
unfoldable pub split_changes : Option ℕ → List (ℕ × ℕ) → Bool × List (ℕ × ℕ)
split_changes none changes = (false, changes)
split_changes (some i) changes = (true, drop (suc i) changes)

-- `finalize`: whether changes were dropped and whether a finalized one was among them, `none` on an
-- error of the client; the changes that stay.
unfoldable pub finalize :
    (ℕ → Option (Option ℕ)) → ℕ → List (ℕ × ℕ) → Option (Bool × Bool) × List (ℕ × ℕ)
finalize canonical number changes =
    let (split, found) = split_loop canonical number changes 0 none (some false) in
    let (altered, left) = split_changes split changes in
    (elim found [ none ↦ none | some f ↦ some (altered, f) ], left)
