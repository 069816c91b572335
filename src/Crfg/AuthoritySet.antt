-- ===== src/Crfg/AuthoritySet.antt =====
-- core/crfg/src/authorities.rs: the authority set of the finality gadget and its pending changes. A
-- block's hash and an authority's key are compared only and are numbers; a block number, a weight and
-- a set's id are `u64`. The fork tree is the crate fork_tree, a parameter.
pub mod Pending
pub mod Firing
pub mod SetId
use yeeroot.Prelude.{
  ℕ, ◌+◌, ◌%◌, ◌^◌, Bool, true, false, ◌||◌, Option, none, some, List, [], ◌∷◌, ◌++◌, ltb, leb,
  ◌==◌, if◌then◌else◌, length, ◌&&◌,
}

-- `current_authorities`: keys and weights.
abbrev pub Authorities : Type 0
Authorities = List (ℕ × ℕ)

pub data DelayKind : Type 0 where
  finalized : DelayKind
  best : ℕ → DelayKind

pub record PendingChange : Type 0 where
  pub next_authorities : Authorities
  pub delay : ℕ
  pub canon_height : ℕ
  pub canon_hash : ℕ
  pub delay_kind : DelayKind

unfoldable pub effective_number : PendingChange → ℕ
effective_number c = (c.canon_height + c.delay) % 2 ^ 64

-- `is_descendent_of(base, block)`; `none` is the caller's error.
abbrev pub Descent : Type 0
Descent = ℕ → ℕ → Option Bool

pub data Finalization : Type 0 where
  unchanged fork_error : Finalization
  changed : Option PendingChange → Finalization

-- The calls of `ForkTree`. An import says whether it went through; the tree comes back either way.
pub record ForkTree (T : Type 0) : Type 0 where
  pub new : T
  pub iter : T → List PendingChange
  pub roots : T → List PendingChange
  pub import_change : ℕ → ℕ → PendingChange → Descent → T → Bool × T
  pub finalize_with_descendent_if : ℕ → ℕ → Descent → (PendingChange → Bool) → T → Finalization × T
  pub finalizes_any_with_descendent_if :
      ℕ → ℕ → Descent → (PendingChange → Bool) → T → Option (Option Bool)

pub record AuthoritySet (T : Type 0) : Type 0 where
  pub current_authorities : Authorities
  pub set_id : ℕ
  pub pending_standard_changes : T
  pub pending_forced_changes : List PendingChange

pub record Status : Type 0 where
  pub is_changed : Bool
  pub new_set_block : Option (ℕ × ℕ)

-- The outcome of `apply_forced_changes`; `unreachable` is its panic.
pub data Forced (T : Type 0) : Type 0 where
  no_change descent_error unreachable : Forced T
  new_set : ℕ → AuthoritySet T → Forced T

-- The keys of forced changes are compared as pairs.
unfoldable pub key_less : ℕ × ℕ → ℕ × ℕ → Bool
key_less a b = ltb a.0 b.0 || (a.0 == b.0 && ltb a.1 b.1)

unfoldable pub change_key : PendingChange → ℕ × ℕ
change_key c = (effective_number c, c.canon_height)

-- `binary_search_by_key` with `unwrap_or_else(|i| i)`, then `insert`: before the first change whose
-- key is not smaller. Of several equal keys the search may find any; here it is the first.
unfoldable pub insert_change : PendingChange → List PendingChange → List PendingChange
insert_change pending [] = pending ∷ []
insert_change pending (c ∷ cs) =
    if key_less (change_key c) (change_key pending)
    then c ∷ insert_change pending cs
    else pending ∷ c ∷ cs

-- The first change with the least effective number, `min_by_key`.
unfoldable pub least_number : List PendingChange → Option ℕ
least_number [] = none
least_number (c ∷ cs) = elim (least_number cs) [
  | none ↦ some (effective_number c)
  | some n ↦ some (if leb (effective_number c) n then effective_number c else n)
]

module _ {T : Type 0} (tree : ForkTree T) where
  unfoldable pub genesis : Authorities → AuthoritySet T
  genesis initial = record {
    current_authorities = initial;
    set_id = 0;
    pending_standard_changes = tree.new;
    pending_forced_changes = [];
  }

  unfoldable pub current : AuthoritySet T → ℕ × Authorities
  current s = (s.set_id, s.current_authorities)

  unfoldable pub add_standard_change :
      PendingChange → Descent → AuthoritySet T → Bool × AuthoritySet T
  add_standard_change pending descent s =
      let (imported, t) =
        tree.import_change pending.canon_hash pending.canon_height pending descent
          s.pending_standard_changes in
      (imported, record s { pending_standard_changes = t })

  -- The search for an ancestor among the forced changes is commented out in the source, which clears
  -- them instead.
  unfoldable pub add_forced_change :
      PendingChange → Descent → AuthoritySet T → Bool × AuthoritySet T
  add_forced_change pending descent s =
      (true, record s { pending_forced_changes = insert_change pending [] })

  unfoldable pub add_pending_change :
      PendingChange → Descent → AuthoritySet T → Bool × AuthoritySet T
  add_pending_change pending descent s = elim pending.delay_kind [
    | best median ↦ add_forced_change pending descent s
    | finalized ↦ add_standard_change pending descent s
  ]

  unfoldable pub pending_changes : AuthoritySet T → List PendingChange
  pending_changes s = tree.iter s.pending_standard_changes ++ s.pending_forced_changes

  unfoldable pub current_limit : AuthoritySet T → Option ℕ
  current_limit s = least_number (tree.roots s.pending_standard_changes)

  -- The set that a forced change makes.
  unfoldable pub forced_set : PendingChange → AuthoritySet T → Forced T
  forced_set change s = elim change.delay_kind [
    | finalized ↦ unreachable
    | best median ↦ new_set median (record {
      current_authorities = change.next_authorities;
      set_id = (s.set_id + 1) % 2 ^ 64;
      pending_standard_changes = tree.new;
      pending_forced_changes = [];
    })
  ]

  -- The loop over the forced changes: `take_while` the effective number is at most the best number,
  -- `filter` those where it is equal.
  unfoldable pub forced_loop : ℕ → ℕ → Descent → List PendingChange → AuthoritySet T → Forced T
  forced_loop best_hash best_number descent [] s = no_change
  forced_loop best_hash best_number descent (c ∷ cs) s =
      let rest = forced_loop best_hash best_number descent cs s in
      if leb (effective_number c) best_number
      then (if effective_number c == best_number
          then (if c.canon_hash == best_hash
              then forced_set c s
              else elim (descent c.canon_hash best_hash) [
                | none ↦ descent_error
                | some true ↦ forced_set c s
                | some false ↦ rest
              ])
          else rest)
      else no_change

  unfoldable pub apply_forced_changes : ℕ → ℕ → Descent → AuthoritySet T → Forced T
  apply_forced_changes best_hash best_number descent s =
      forced_loop best_hash best_number descent s.pending_forced_changes s

  unfoldable pub enact : ℕ → ℕ → Option PendingChange → AuthoritySet T → Status × AuthoritySet T
  enact finalized_hash finalized_number none s =
      (record { is_changed = true; new_set_block = none }, s)
  enact finalized_hash finalized_number (some change) s = (
    record { is_changed = true; new_set_block = some (finalized_hash, finalized_number) },
    record s { current_authorities = change.next_authorities; set_id = (s.set_id + 1) % 2 ^ 64 },
  )

  -- `none` is the fork tree's error.
  unfoldable pub apply_standard_changes :
      ℕ → ℕ → Descent → AuthoritySet T → Option Status × AuthoritySet T
  apply_standard_changes finalized_hash finalized_number descent s =
      let (result, t) =
        tree.finalize_with_descendent_if finalized_hash finalized_number descent
          (λ c. leb (effective_number c) finalized_number) s.pending_standard_changes in
      let s' : AuthoritySet T = record s { pending_standard_changes = t } in
      elim result [
        | fork_error ↦ (none, s')
        | unchanged ↦ (some (record { is_changed = false; new_set_block = none }), s')
        | changed change ↦
            let (status, s'') =
              enact finalized_hash finalized_number change
                (record s' { pending_forced_changes = [] }) in
            (some status, s'')
      ]

  unfoldable pub enacts_standard_change : ℕ → ℕ → Descent → AuthoritySet T → Option (Option Bool)
  enacts_standard_change finalized_hash finalized_number descent s =
      tree.finalizes_any_with_descendent_if finalized_hash finalized_number descent
        (λ c. effective_number c == finalized_number) s.pending_standard_changes
