-- ===== src/Crfg/AuthoritySet/SetId.antt =====
-- core/crfg/src/authorities.rs: over any sequence of operations, the set's id counts the changes of
-- the authorities, and at most one forced change is pending.
use yeeroot.Prelude.{
  ℕ, ◌+◌, ◌%◌, ◌^◌, ◌≡◌, ◌⊎◌, inl, inr, refl, sym, subst, Option, none, some, [], arith, ◌∙◌,
}
use yeeroot.Crfg.AuthoritySet.{
  PendingChange, Descent, ForkTree, AuthoritySet, Status, new_set, add_pending_change,
  apply_forced_changes, apply_standard_changes, enact, add_standard_change, add_forced_change,
}
use yeeroot.Crfg.AuthoritySet.Pending.{AtMostOne, no_forced, add_pending_change-AtMostOne}
use yeeroot.Crfg.AuthoritySet.Firing.{apply_forced_changes-Source}

-- The changes of authorities that an outcome of `apply_standard_changes` tells of.
unfoldable pub enacted : Option Status → ℕ
enacted none = 0
enacted (some status) = elim status.new_set_block [ none ↦ 0 | some block ↦ 1 ]

module _ {T : Type 0} (tree : ForkTree T) where
  -- One operation, with the number of changes of authorities that it reports. A set that a best
  -- block makes replaces the old one.
  pub data Step (s : AuthoritySet T) : ℕ → AuthoritySet T → Type 0 where
    adds :
        (pending : PendingChange) (descent : Descent)
        → Step s 0 (add_pending_change tree pending descent s).1
    finalizes :
        (hash number : ℕ) (descent : Descent)
        → Step s
            (enacted (apply_standard_changes tree hash number descent s).0)
            (apply_standard_changes tree hash number descent s).1
    forces :
        (hash number : ℕ) (descent : Descent) (median : ℕ) (t : AuthoritySet T)
        → apply_forced_changes tree hash number descent s ≡ new_set median t
        → Step s 1 t

  pub data Reach (s : AuthoritySet T) : ℕ → AuthoritySet T → Type 0 where
    here : Reach s 0 s
    then_step : (m n : ℕ) (t u : AuthoritySet T) → Reach s m t → Step t n u → Reach s (m + n) u

  adds-same :
      (pending : PendingChange) (descent : Descent) (s : AuthoritySet T)
      → ((add_pending_change tree pending descent s).1.set_id ≡ s.set_id)
        × ((add_pending_change tree pending descent s).1.current_authorities
            ≡ s.current_authorities)
  unfolding add_pending_change add_forced_change add_standard_change
  adds-same pending descent s = ground arith

  finalizes-counts :
      (hash number : ℕ) (descent : Descent) (s : AuthoritySet T)
      → let n = enacted (apply_standard_changes tree hash number descent s).0 in
        let t = (apply_standard_changes tree hash number descent s).1 in
        (t.set_id % 2 ^ 64 ≡ (s.set_id + n) % 2 ^ 64)
        × ((n ≡ 1) ⊎ (t.current_authorities ≡ s.current_authorities))
        × ((t.pending_forced_changes ≡ s.pending_forced_changes) ⊎ (t.pending_forced_changes ≡ []))
  unfolding apply_standard_changes enact enacted
  finalizes-counts hash number descent s = ground arith

  Step-counts :
      (s t : AuthoritySet T) (n : ℕ)
      → Step s n t
      → AtMostOne s.pending_forced_changes
      → t.set_id % 2 ^ 64 ≡ (s.set_id + n) % 2 ^ 64
  Step-counts s _ _ (adds pending descent) one = omega (arith, adds-same pending descent s)
  Step-counts s _ _ (finalizes hash number descent) one = (finalizes-counts hash number descent s).0
  Step-counts s t _ (forces hash number descent median _ h) one =
      let (before, c, rest, split, passed, due, related, forced, made) =
        apply_forced_changes-Source hash number descent tree s median t h in
      ground (arith, made)

  Step-AtMostOne :
      (s t : AuthoritySet T) (n : ℕ)
      → Step s n t
      → AtMostOne s.pending_forced_changes
      → AtMostOne t.pending_forced_changes
  Step-AtMostOne s _ _ (adds pending descent) one =
      add_pending_change-AtMostOne tree pending descent s one
  Step-AtMostOne s _ _ (finalizes hash number descent) one =
      elim (finalizes-counts hash number descent s).2 [
        | inl e ↦ subst AtMostOne (sym e) one
        | inr e ↦ subst AtMostOne (sym e) no_forced
      ]
  Step-AtMostOne s t _ (forces hash number descent median _ h) one =
      let (before, c, rest, split, passed, due, related, forced, made) =
        apply_forced_changes-Source hash number descent tree s median t h in
      rw made no_forced

  Step-same :
      (s t : AuthoritySet T) (n : ℕ)
      → Step s n t
      → n ≡ 0
      → t.current_authorities ≡ s.current_authorities
  Step-same s _ _ (adds pending descent) zero_changes = (adds-same pending descent s).1
  Step-same s _ _ (finalizes hash number descent) zero_changes =
      elim (finalizes-counts hash number descent s).1 [
        | inl e ↦ absurd (omega (arith, e, zero_changes))
        | inr e ↦ e
      ]
  Step-same s t _ (forces hash number descent median _ h) zero_changes = absurd (omega arith)

  -- However changes are added, finalized and forced, at most one forced change is pending, if that
  -- was so at the start.
  pub Reach-AtMostOne :
      (s t : AuthoritySet T) (n : ℕ)
      → Reach s n t
      → AtMostOne s.pending_forced_changes
      → AtMostOne t.pending_forced_changes
  Reach-AtMostOne s _ _ here one = one
  Reach-AtMostOne s u _ (then_step m n t _ before last) one =
      Step-AtMostOne t u n last (Reach-AtMostOne s t m before one)

  -- Over any sequence of operations the set's id grows, modulo its width, by the number of changes of
  -- authorities that the operations report, if at most one forced change is pending at the start.
  pub Reach-counts :
      (s t : AuthoritySet T) (n : ℕ)
      → Reach s n t
      → AtMostOne s.pending_forced_changes
      → t.set_id % 2 ^ 64 ≡ (s.set_id + n) % 2 ^ 64
  Reach-counts s _ _ here one = omega arith
  Reach-counts s u _ (then_step m n t _ before last) one = omega (
    arith,
    Reach-counts s t m before one,
    Step-counts t u n last (Reach-AtMostOne s t m before one),
  )

  -- A sequence of operations that reports no change leaves the authorities as they were.
  pub Reach-same :
      (s t : AuthoritySet T) (n : ℕ)
      → Reach s n t
      → n ≡ 0
      → t.current_authorities ≡ s.current_authorities
  Reach-same s _ _ here zero_changes = refl
  Reach-same s u _ (then_step m n t _ before last) zero_changes =
      Step-same t u n last (omega arith) ∙ Reach-same s t m before (omega arith)
