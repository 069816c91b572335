-- ===== src/Crfg/AuthoritySet/Firing.antt =====
-- core/crfg/src/authorities.rs: which of the pending forced changes a best block enacts, for any
-- number of them on any number of forks.
use yeeroot.Prelude.{
  ℕ, ◌+◌, ◌%◌, ◌^◌, ◌≤◌, ◌≡◌, ◌⊎◌, ◌↔◌, inl, inr, refl, ap, sym, subst, ◌∙◌, Bool, true, false,
  ◌&&◌, ◌||◌, not, Option, some, List, [], ◌∷◌, ◌++◌, arith, leb, ◌==◌, Bool-cases,
}
use yeeroot.Crfg.AuthoritySet.{
  best, PendingChange, effective_number, Descent, ForkTree, AuthoritySet, new_set, forced_set,
  forced_loop, apply_forced_changes,
}
use yeeroot.Crfg.AuthoritySet.Pending.{DelayKind-cases, forced_set_best}

-- Forced changes in the order of their effective numbers, from a number on.
unfoldable pub ordered_from : ℕ → List PendingChange → Bool
ordered_from n [] = true
ordered_from n (c ∷ cs) = leb n (effective_number c) && ordered_from (effective_number c) cs

module _ (best_hash best_number : ℕ) (descent : Descent) where
  unfoldable pub is_unrelated : Option Bool → Bool
  is_unrelated (some false) = true
  is_unrelated _ = false

  -- Whether the block leaves a change alone: the block has another number, or is known to be on
  -- another fork.
  unfoldable pub passes : PendingChange → Bool
  passes c =
      not (effective_number c == best_number)
      || (not (c.canon_hash == best_hash) && is_unrelated (descent c.canon_hash best_hash))

  unfoldable pub all_pass : List PendingChange → Bool
  all_pass [] = true
  all_pass (c ∷ cs) = passes c && all_pass cs

  ordered_from-le :
      (n : ℕ) (before : List PendingChange) (c : PendingChange) (rest : List PendingChange)
      → ordered_from n (before ++ (c ∷ rest)) ≡ true
      → n ≤ effective_number c
  unfolding ordered_from
  ordered_from-le n [] c rest h = ground arith
  ordered_from-le n (d ∷ before) c rest h =
      ground (arith, ordered_from-le (effective_number d) before c rest)

  module _ {T : Type 0} (tree : ForkTree T) where
    -- A change that is the first the block does not leave alone makes its set.
    forced_loop-first :
        (n : ℕ) (before : List PendingChange) (c : PendingChange) (rest : List PendingChange)
        (s : AuthoritySet T)
        → ordered_from n (before ++ (c ∷ rest)) ≡ true
        → all_pass before ≡ true
        → effective_number c ≡ best_number
        → (c.canon_hash ≡ best_hash) ⊎ (descent c.canon_hash best_hash ≡ some true)
        → forced_loop tree best_hash best_number descent (before ++ (c ∷ rest)) s
          ≡ forced_set tree c s
    unfolding forced_loop all_pass passes is_unrelated ordered_from
    forced_loop-first n [] c rest s ordered passed due related = ground arith
    forced_loop-first n (d ∷ before) c rest s ordered passed due related = ground (
      arith,
      ordered_from-le (effective_number d) before c rest,
      forced_loop-first (effective_number d) before c rest s,
    )

    -- The change that a new set comes from.
    abbrev pub Source : List PendingChange → AuthoritySet T → ℕ → AuthoritySet T → Type 0
    Source cs s median t =
        (before : List PendingChange) × (c : PendingChange) × (rest : List PendingChange) × (cs
          ≡ before ++ (c ∷ rest))
        × (all_pass before ≡ true)
        × (effective_number c ≡ best_number)
        × ((c.canon_hash ≡ best_hash) ⊎ (descent c.canon_hash best_hash ≡ some true))
        × (c.delay_kind ≡ best median)
        × (t ≡ record {
          current_authorities = c.next_authorities;
          set_id = (s.set_id + 1) % 2 ^ 64;
          pending_standard_changes = tree.new;
          pending_forced_changes = [];
        })

    made_by :
        (c : PendingChange) (rest : List PendingChange) (s : AuthoritySet T) (median : ℕ)
        (t : AuthoritySet T)
        → effective_number c ≡ best_number
        → (c.canon_hash ≡ best_hash) ⊎ (descent c.canon_hash best_hash ≡ some true)
        → forced_set tree c s ≡ new_set median t
        → Source (c ∷ rest) s median t
    unfolding forced_set all_pass
    made_by c rest s median t due related h = elim (DelayKind-cases c.delay_kind) [
      | inl e ↦ absurd (ground (arith, e))
      | inr (m, e) ↦ ([], c, rest, refl, refl, due, related, ground (arith, e), ground (arith, e))
    ]

    passed_over :
        (d : PendingChange) (cs : List PendingChange) (s : AuthoritySet T) (median : ℕ)
        (t : AuthoritySet T)
        → passes d ≡ true
        → Source cs s median t
        → Source (d ∷ cs) s median t
    unfolding all_pass
    passed_over d cs s median t pass (before, c, rest, split, passed, due, related, forced, shape) =
        (d ∷ before, c, rest, ap (λ l. d ∷ l) split, ground arith, due, related, forced, shape)

    forced_loop-Source :
        (cs : List PendingChange) (s : AuthoritySet T) (median : ℕ) (t : AuthoritySet T)
        → forced_loop tree best_hash best_number descent cs s ≡ new_set median t
        → Source cs s median t
    unfolding forced_loop passes is_unrelated
    forced_loop-Source [] s median t h = absurd (ground arith)
    forced_loop-Source (c ∷ cs) s median t h = elim (Bool-cases (passes c)) [
      | inl pass ↦
          passed_over c cs s median t pass (forced_loop-Source cs s median t (ground arith))
      | inr stays ↦ made_by c cs s median t (ground arith) (ground arith) (ground arith)
    ]

    pub apply_forced_changes-Source :
        (s : AuthoritySet T) (median : ℕ) (t : AuthoritySet T)
        → apply_forced_changes tree best_hash best_number descent s ≡ new_set median t
        → Source s.pending_forced_changes s median t
    unfolding apply_forced_changes
    apply_forced_changes-Source s = forced_loop-Source s.pending_forced_changes s

    -- A best block makes a new set of the authorities exactly if one of the pending forced changes is
    -- due and on the block's fork: the block's number is its effective number, the block is the one
    -- that signalled it or descends from it, and every change before it has another effective number
    -- or is known to be on another fork. The set has that change's authorities, the next id and no
    -- pending changes, and comes with that change's median. The pending changes, of which there may
    -- be any number, are assumed to be in the order of their effective numbers.
    pub apply_forced_changes_iff :
        (s : AuthoritySet T) (median : ℕ) (t : AuthoritySet T)
        → ordered_from 0 s.pending_forced_changes ≡ true
        → (apply_forced_changes tree best_hash best_number descent s ≡ new_set median t)
          ↔ Source s.pending_forced_changes s median t
    unfolding apply_forced_changes
    apply_forced_changes_iff s median t ordered = (
      apply_forced_changes-Source s median t,
      λ source.
          let (before, c, rest, split, passed, due, related, forced, shape) = source in
          ap (λ l. forced_loop tree best_hash best_number descent l s) split
          ∙ forced_loop-first 0 before c rest s (subst (λ l. ordered_from 0 l ≡ true) split ordered)
              passed due related
          ∙ forced_set_best tree c median s forced
          ∙ ap (new_set median) (sym shape),
    )
