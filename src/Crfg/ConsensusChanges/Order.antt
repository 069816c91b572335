-- ===== src/Crfg/ConsensusChanges/Order.antt =====
-- core/crfg/src/consensus_changes.rs: the changes stay in the order of their blocks, and finalizing a
-- block drops exactly those up to it.
use yeeroot.Prelude.{
  ℕ, suc, ◌≤◌, ◌<◌, ◌≡◌, inl, inr, refl, Bool, true, false, Option, none, some, List, [], ◌∷◌,
  arith, ltb, leb, ◌==◌, if◌then◌else◌, drop, Bool-cases, Option-cases, not, ◌||◌, ◌++◌, ◌+◌, ◌-◌,
  ap, subst, sym, length,
}
use yeeroot.Crfg.ConsensusChanges.{note_change, fold_step, split_loop, split_changes, finalize}

-- Every number is at least `n`.
abbrev pub From : ℕ → List (ℕ × ℕ) → Type 0
From n [] = Unit {0}
From n (c ∷ cs) = (n ≤ c.0) × From n cs

-- The changes are in the order of their blocks.
abbrev pub InOrder : List (ℕ × ℕ) → Type 0
InOrder [] = Unit {0}
InOrder (c ∷ cs) = From c.0 cs × InOrder cs

From-le : (m n : ℕ) (cs : List (ℕ × ℕ)) → m ≤ n → From n cs → From m cs
From-le m n [] le h = tt
From-le m n (c ∷ cs) le h = (omega (arith, h.0), From-le m n cs le h.1)

note_change-From :
    (n : ℕ) (at : ℕ × ℕ) (cs : List (ℕ × ℕ)) → n ≤ at.0 → From n cs → From n (note_change at cs)
unfolding note_change
note_change-From n at [] le h = (le, tt)
note_change-From n at (c ∷ cs) le h = elim (Bool-cases (ltb c.0 at.0)) [
  | inl e ↦ rw e (h.0, note_change-From n at cs le h.1)
  | inr e ↦ rw e (le, h)
]

-- Noting a change keeps the changes in the order of their blocks.
pub note_change-InOrder :
    (at : ℕ × ℕ) (cs : List (ℕ × ℕ)) → InOrder cs → InOrder (note_change at cs)
unfolding note_change
note_change-InOrder at [] h = (tt, tt)
note_change-InOrder at (c ∷ cs) h = elim (Bool-cases (ltb c.0 at.0)) [
  | inl e ↦ rw e (note_change-From c.0 at cs (ground arith) h.0, note_change-InOrder at cs h.1)
  | inr e ↦ let le : at.0 ≤ c.0 = ground arith in rw e ((le, From-le at.0 c.0 cs le h.0), h)
]

-- The changes up to a number, and those behind them.
unfoldable pub up_to : ℕ → List (ℕ × ℕ) → List (ℕ × ℕ)
up_to number [] = []
up_to number (c ∷ cs) = if leb c.0 number then c ∷ up_to number cs else []

unfoldable pub behind : ℕ → List (ℕ × ℕ) → List (ℕ × ℕ)
behind number [] = []
behind number (c ∷ cs) = if leb c.0 number then behind number cs else c ∷ cs

unfoldable pub is_canonical : (ℕ → Option ℕ) → ℕ × ℕ → Bool
is_canonical canonical c = elim (canonical c.0) [ none ↦ false | some hash ↦ c.1 == hash ]

-- Whether a change is on the canonical chain.
unfoldable pub any_canonical : (ℕ → Option ℕ) → List (ℕ × ℕ) → Bool
any_canonical canonical [] = false
any_canonical canonical (c ∷ cs) = is_canonical canonical c || any_canonical canonical cs

fold_step-some :
    (canonical : ℕ → Option ℕ) (c : ℕ × ℕ) (b : Bool)
    → fold_step (λ n. some (canonical n)) c (some b) ≡ some (b || is_canonical canonical c)
unfolding fold_step is_canonical
fold_step-some canonical c true = refl
fold_step-some canonical c false = elim (Option-cases (canonical c.0)) [
  | inl e ↦ ground (arith, e)
  | inr (hash, e) ↦ ground (arith, e)
]

split_loop-found :
    (canonical : ℕ → Option ℕ) (number : ℕ) (cs : List (ℕ × ℕ)) (i : ℕ) (split : Option ℕ)
    (b : Bool)
    → (split_loop (λ n. some (canonical n)) number cs i split (some b)).1
      ≡ some (b || any_canonical canonical (up_to number cs))
unfolding split_loop any_canonical up_to
split_loop-found canonical number [] i split b = ground arith
split_loop-found canonical number (c ∷ cs) i split b = ground (
  arith,
  fold_step-some canonical c b,
  split_loop-found canonical number cs (suc i) (some i) (b || is_canonical canonical c),
)

-- The index of the last change that the loop takes.
split_loop-split :
    (canonical : ℕ → Option (Option ℕ)) (number : ℕ) (cs : List (ℕ × ℕ)) (i : ℕ) (split : Option ℕ)
    (found : Option Bool)
    → (split_loop canonical number cs i split found).0
      ≡ (if length (up_to number cs) == 0 then split else some (i + length (up_to number cs) - 1))
unfolding split_loop up_to
split_loop-split canonical number [] i split found = ground arith
split_loop-split canonical number (c ∷ cs) i split found =
    ground
      (arith, split_loop-split canonical number cs (suc i) (some i) (fold_step canonical c found))

drop-up_to :
    (number : ℕ) (cs : List (ℕ × ℕ)) → drop (length (up_to number cs)) cs ≡ behind number cs
unfolding up_to behind
drop-up_to number [] = refl
drop-up_to number (c ∷ cs) = ground (arith, drop-up_to number cs)

up_to-behind : (number : ℕ) (cs : List (ℕ × ℕ)) → up_to number cs ++ behind number cs ≡ cs
unfolding up_to behind
up_to-behind number [] = refl
up_to-behind number (c ∷ cs) = ground (arith, up_to-behind number cs)

behind-From : (number : ℕ) (cs : List (ℕ × ℕ)) → InOrder cs → From (suc number) (behind number cs)
unfolding behind
behind-From number [] h = tt
behind-From number (c ∷ cs) h = elim (Bool-cases (leb c.0 number)) [
  | inl e ↦ rw e (behind-From number cs h.1)
  | inr e ↦
      let lt : number < c.0 = ground arith in
      rw e (omega (arith, lt), From-le (suc number) c.0 cs (omega (arith, lt)) h.0)
]

finalize-left :
    (canonical : ℕ → Option (Option ℕ)) (number : ℕ) (cs : List (ℕ × ℕ))
    → split_changes (split_loop canonical number cs 0 none (some false)).0 cs
      ≡ (not (length (up_to number cs) == 0), behind number cs)
unfolding split_changes
finalize-left canonical number cs =
    let k : ℕ = length (up_to number cs) in
    let split = split_loop-split canonical number cs 0 none (some false) in
    elim (Bool-cases (k == 0)) [
      | inl e ↦ ground (arith, e, split, drop-up_to number cs)
      | inr e ↦
          let last : suc (0 + k - 1) ≡ k = ground (arith, e) in
          ground (arith, e, split, ap (λ n. drop n cs) last, drop-up_to number cs)
    ]

-- Finalizing a block, where the client gives no error, drops the changes up to its number, tells
-- whether there are any and whether one of them is on the canonical chain, and leaves the rest. If
-- the changes are in the order of their blocks, all that stay are of later blocks.
pub finalize-splits :
    (canonical : ℕ → Option ℕ) (number : ℕ) (cs : List (ℕ × ℕ))
    → InOrder cs
    → let (r, left) = finalize (λ n. some (canonical n)) number cs in
      (r ≡ some (not (length (up_to number cs) == 0), any_canonical canonical (up_to number cs)))
      × (up_to number cs ++ left ≡ cs)
      × From (suc number) left
unfolding finalize
finalize-splits canonical number cs h =
    let left = finalize-left (λ n. some (canonical n)) number cs in
    let found = split_loop-found canonical number cs 0 none false in
    (
      ground (arith, left, found),
      ground (arith, left, up_to-behind number cs),
      subst (From (suc number)) (sym (ap (λ t. t.1) left)) (behind-From number cs h),
    )
