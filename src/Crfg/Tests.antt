-- ===== src/Crfg/Tests.antt =====
-- The theorems on finality at concrete changes. The fork tree of the tests is a list of changes that
-- finalizes the first change that is ready.
use yeeroot.Prelude.{
  ℕ, ◌+◌, ◌*◌, ◌%◌, ◌^◌, ◌≡◌, ◌↔◌, refl, Bool, true, false, none, some, List, [], ◌∷◌, ◌++◌, arith,
  length, ◌==◌, leb, not,
}
use yeeroot.Crfg.AuthoritySet.{
  finalized, best, PendingChange, effective_number, Descent, Finalization, unchanged, changed,
  ForkTree, AuthoritySet, new_set, add_pending_change, current_limit, apply_forced_changes,
  least_number, forced_loop, forced_set,
}
use yeeroot.Crfg.AuthoritySet.Pending.{AtMostOne, one_forced}
use yeeroot.Crfg.AuthoritySet.Firing.{ordered_from, Source, apply_forced_changes_iff}
use yeeroot.Crfg.AuthoritySet.SetId.{Step, Reach, Reach-AtMostOne, Reach-counts}
use yeeroot.Crfg.ConsensusChanges.{finalize}
use yeeroot.Crfg.ConsensusChanges.Order.{InOrder, From, up_to, any_canonical, finalize-splits}
use yeeroot.Crfg.Authorities.{Crfg}

abbrev finalize_first :
    (PendingChange → Bool) → List PendingChange → Finalization × List PendingChange
finalize_first ready [] = (unchanged, [])
finalize_first ready (c ∷ cs) = elim (ready c) [
  | true ↦ (changed (some c), cs)
  | false ↦ (unchanged, c ∷ cs)
]

abbrev listed : ForkTree (List PendingChange)
listed = record {
  new = [];
  iter = λ t. t;
  roots = λ t. t;
  import_change = λ hash number c descent t. (true, t ++ c ∷ []);
  finalize_with_descendent_if = λ hash number descent ready t. finalize_first ready t;
  finalizes_any_with_descendent_if = λ hash number descent ready t. some none;
}

abbrev related : Descent
related base block = some (leb base block)

abbrev forced_change : PendingChange
forced_change = record {
  next_authorities = (1, 1) ∷ (2, 1) ∷ [];
  delay = 4;
  canon_height = 20;
  canon_hash = 20;
  delay_kind = best 18;
}

abbrev standard_change : PendingChange
standard_change = record {
  next_authorities = (3, 1) ∷ [];
  delay = 2;
  canon_height = 21;
  canon_hash = 21;
  delay_kind = finalized;
}

abbrev voters : AuthoritySet (List PendingChange)
voters = record {
  current_authorities = (1, 1) ∷ [];
  set_id = 6;
  pending_standard_changes = standard_change ∷ [];
  pending_forced_changes = forced_change ∷ [];
}

abbrev forced_voters : AuthoritySet (List PendingChange)
forced_voters = record {
  current_authorities = (1, 1) ∷ (2, 1) ∷ [];
  set_id = 7;
  pending_standard_changes = [];
  pending_forced_changes = [];
}

voters-AtMostOne : AtMostOne voters.pending_forced_changes
voters-AtMostOne = one_forced forced_change 18 refl

limit : current_limit listed voters ≡ some 23
unfolding current_limit least_number effective_number
limit = refl

enacts : apply_forced_changes listed 24 24 related voters ≡ new_set 18 forced_voters
unfolding apply_forced_changes forced_loop forced_set effective_number
enacts = refl

-- Two changes for one number on two forks, of which the block is on the second.
abbrev elsewhere_change : PendingChange
elsewhere_change = record forced_change { canon_hash = 70; delay_kind = best 11 }

abbrev split_voters : AuthoritySet (List PendingChange)
split_voters = record voters { pending_forced_changes = elsewhere_change ∷ forced_change ∷ [] }

split_ordered : ordered_from 0 split_voters.pending_forced_changes ≡ true
unfolding ordered_from effective_number
split_ordered = refl

apply_forced_changes_iff_example :
    (apply_forced_changes listed 24 24 related split_voters ≡ new_set 18 forced_voters)
    ↔ Source 24 24 related listed split_voters.pending_forced_changes split_voters 18 forced_voters
apply_forced_changes_iff_example =
    apply_forced_changes_iff 24 24 related listed split_voters 18 forced_voters split_ordered

noted : Reach listed voters 0 (add_pending_change listed forced_change related voters).1
noted = Reach.then_step 0 0 voters _ Reach.here (Step.adds forced_change related)

Reach-AtMostOne_example :
    AtMostOne (add_pending_change listed forced_change related voters).1.pending_forced_changes
Reach-AtMostOne_example =
    Reach-AtMostOne listed voters (add_pending_change listed forced_change related voters).1 0 noted
      voters-AtMostOne

Reach-counts_example : forced_voters.set_id % 2 ^ 64 ≡ (voters.set_id + 1) % 2 ^ 64
Reach-counts_example =
    Reach-counts listed voters forced_voters 1
      (Reach.then_step 0 1 voters _ Reach.here (Step.forces 24 24 related 18 forced_voters enacts))
      voters-AtMostOne

abbrev changes : List (ℕ × ℕ)
changes = (3, 30) ∷ (5, 50) ∷ (9, 90) ∷ []

changes-InOrder : InOrder changes
changes-InOrder = ((omega arith, (omega arith, tt)), ((omega arith, tt), (tt, tt)))

finalize-splits_example :
    let (r, left) = finalize (λ n. some (some (n * 10))) 6 changes in
    (r
      ≡ some (
        not (length (up_to 6 changes) == 0),
        any_canonical (λ n. some (n * 10)) (up_to 6 changes),
      ))
    × (up_to 6 changes ++ left ≡ changes)
    × From 7 left
finalize-splits_example = finalize-splits (λ n. some (n * 10)) 6 changes changes-InOrder

abbrev runtime : Crfg
runtime = record {
  authorities = (1, 1) ∷ (2, 1) ∷ [];
  pending_change = none;
  signals = [];
  new_authorities_events = [];
}
