-- ===== src/Crfg/AuthoritySet/Pending.antt =====
-- core/crfg/src/authorities.rs: the pending changes, forced and standard, and what a best block makes
-- of the forced ones.
use yeeroot.Prelude.{
  ℕ, zero, suc, ◌+◌, ◌%◌, ◌^◌, ◌≤◌, ◌≡◌, ◌≢◌, ◌⊎◌, inl, inr, refl, true, none, some, List, [], ◌∷◌,
  arith, leb, Bool-cases, Option-cases, get_elem?, subst, sym,
}
use yeeroot.Crfg.AuthoritySet.{
  DelayKind, finalized, best, PendingChange, effective_number, Descent, ForkTree, AuthoritySet,
  unreachable, new_set, insert_change, least_number, add_standard_change, add_forced_change,
  add_pending_change, current_limit, forced_set, forced_loop, apply_forced_changes,
}

least_number-nonempty :
    (cs : List PendingChange) (i : ℕ) (c : PendingChange)
    → least_number cs ≡ none
    → get_elem? cs i ≡ some c
    → ⊥
unfolding least_number
least_number-nonempty [] i c h at = ground arith
least_number-nonempty (d ∷ ds) i c h at = elim (Option-cases (least_number ds)) [
  | inl e ↦ ground (arith, e)
  | inr (m, e) ↦ ground (arith, e)
]

pub DelayKind-cases : (k : DelayKind) → (k ≡ finalized) ⊎ ((median : ℕ) × (k ≡ best median))
DelayKind-cases finalized = inl refl
DelayKind-cases (best median) = inr (median, refl)

-- The forced changes that can be pending: none or one, and it is a forced one.
pub data AtMostOne : List PendingChange → Type 0 where
  no_forced : AtMostOne []
  one_forced : (c : PendingChange) (median : ℕ) → c.delay_kind ≡ best median → AtMostOne (c ∷ [])

least_number-least :
    (cs : List PendingChange) (n i : ℕ) (c : PendingChange)
    → least_number cs ≡ some n
    → get_elem? cs i ≡ some c
    → n ≤ effective_number c
unfolding least_number
least_number-least [] n i c h at = absurd (ground arith)
least_number-least (d ∷ ds) n zero c h at = elim (Option-cases (least_number ds)) [
  | inl e ↦ ground (arith, e)
  | inr (m, e) ↦ ground (arith, e)
]
least_number-least (d ∷ ds) n (suc i) c h at = elim (Option-cases (least_number ds)) [
  | inl e ↦ absurd (least_number-nonempty ds i c e at)
  | inr (m, e) ↦ ground (arith, e, least_number-least ds m i c e at)
]

least_number-among :
    (cs : List PendingChange) (n : ℕ)
    → least_number cs ≡ some n
    → (i : ℕ) × (c : PendingChange) × (get_elem? cs i ≡ some c) × (effective_number c ≡ n)
unfolding least_number
least_number-among [] n h = absurd (ground arith)
least_number-among (d ∷ ds) n h = elim (Option-cases (least_number ds)) [
  | inl e ↦ (0, d, refl, ground (arith, e))
  | inr (m, e) ↦ elim (Bool-cases (leb (effective_number d) m)) [
    | inl first ↦ (0, d, refl, ground (arith, e, first))
    | inr later ↦
        let (i, c, at, same) = least_number-among ds m e in
        (suc i, c, at, ground (arith, e, later, same))
  ]
]

module _ {T : Type 0} (tree : ForkTree T) where
  -- The earliest limit is the effective number of one of the roots of the tree of standard changes,
  -- and no root has a lower one.
  pub current_limit-least :
      (s : AuthoritySet T) (n j : ℕ) (d : PendingChange)
      → current_limit tree s ≡ some n
      → get_elem? (tree.roots s.pending_standard_changes) j ≡ some d
      → (n ≤ effective_number d)
        × ((i : ℕ) × (c : PendingChange) × (get_elem? (tree.roots s.pending_standard_changes) i
              ≡ some c)
            × (effective_number c ≡ n))
  unfolding current_limit
  current_limit-least s n j d h at = (
    least_number-least (tree.roots s.pending_standard_changes) n j d h at,
    least_number-among (tree.roots s.pending_standard_changes) n h,
  )

  pending-shape :
      (pending : PendingChange) (descent : Descent) (s : AuthoritySet T)
      → let after = (add_pending_change tree pending descent s).1.pending_forced_changes in
        (after ≡ s.pending_forced_changes)
        ⊎ ((after ≡ pending ∷ []) × ((median : ℕ) × (pending.delay_kind ≡ best median)))
  unfolding add_pending_change add_forced_change add_standard_change insert_change
  pending-shape pending descent s = elim (DelayKind-cases pending.delay_kind) [
    | inl e ↦ inl (ground (arith, e))
    | inr (median, e) ↦ inr (ground (arith, e), (median, e))
  ]

  pub add_pending_change-AtMostOne :
      (pending : PendingChange) (descent : Descent) (s : AuthoritySet T)
      → AtMostOne s.pending_forced_changes
      → AtMostOne (add_pending_change tree pending descent s).1.pending_forced_changes
  add_pending_change-AtMostOne pending descent s h = elim (pending-shape pending descent s) [
    | inl e ↦ subst AtMostOne (sym e) h
    | inr (e, (median, forced)) ↦ subst AtMostOne (sym e) (one_forced pending median forced)
  ]

  pub forced_set_best :
      (c : PendingChange) (median : ℕ) (s : AuthoritySet T)
      → c.delay_kind ≡ best median
      → forced_set tree c s
        ≡ new_set median (record {
          current_authorities = c.next_authorities;
          set_id = (s.set_id + 1) % 2 ^ 64;
          pending_standard_changes = tree.new;
          pending_forced_changes = [];
        })
  unfolding forced_set
  forced_set_best c median s e = ground (arith, e)

  forced_loop-reachable :
      (best_hash best_number : ℕ) (descent : Descent) (cs : List PendingChange) (s : AuthoritySet T)
      → AtMostOne cs
      → forced_loop tree best_hash best_number descent cs s ≢ unreachable
  unfolding forced_loop
  forced_loop-reachable best_hash best_number descent _ s no_forced = ground arith
  forced_loop-reachable best_hash best_number descent _ s (one_forced c median e) =
      ground (arith, forced_set_best c median s e)

  -- If at most one forced change is pending, the search for a change to enact never reaches the code
  -- that is marked unreachable.
  pub apply_forced_changes-reachable :
      (best_hash best_number : ℕ) (descent : Descent) (s : AuthoritySet T)
      → AtMostOne s.pending_forced_changes
      → apply_forced_changes tree best_hash best_number descent s ≢ unreachable
  unfolding apply_forced_changes
  apply_forced_changes-reachable best_hash best_number descent s =
      forced_loop-reachable best_hash best_number descent s.pending_forced_changes s

  -- A forced change that is pending alone makes its set at the block that signalled it and at every
  -- descendant of it, if the block's number is the effective number.
  pub apply_forced_changes-fires :
      (best_hash : ℕ) (descent : Descent) (s : AuthoritySet T) (c : PendingChange) (median : ℕ)
      → s.pending_forced_changes ≡ c ∷ []
      → c.delay_kind ≡ best median
      → (c.canon_hash ≡ best_hash) ⊎ (descent c.canon_hash best_hash ≡ some true)
      → apply_forced_changes tree best_hash (effective_number c) descent s
        ≡ new_set median (record {
          current_authorities = c.next_authorities;
          set_id = (s.set_id + 1) % 2 ^ 64;
          pending_standard_changes = tree.new;
          pending_forced_changes = [];
        })
  unfolding apply_forced_changes forced_loop
  apply_forced_changes-fires best_hash descent s c median alone forced related =
      ground (arith, alone, forced_set_best c median s forced)
