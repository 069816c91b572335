-- ===== src/Crfg/UntilImported/Tests.antt =====
-- The theorems on held-back votes and commits at concrete blocks: block 5 is known with number 5.
use yeeroot.Prelude.{◌≤◌, ◌≡◌, ◌↔◌, refl, none, some, [], ◌∷◌, ◌==◌, if◌then◌else◌, arith}
use yeeroot.Storage.{ℕ_key, lookup, write}
use yeeroot.Crfg.UntilImported.{
  CompactCommit, entry, insert_checked, canon_number, number_of, query_known, query_all,
  query_commit, waits, ready_now, waiting_for, scheduled, schedule_wait, arrived, holding, finished,
  advance,
}
use yeeroot.Crfg.UntilImported.Countdown.{
  System, pick, Reach, here, later, all_arrived, tally, gave, uncounted,
}
use yeeroot.Crfg.UntilImported.Schedule.Ready.{
  CommitKnown, schedule_wait_iff, imported, schedule_wait-gave,
}
use yeeroot.Crfg.UntilImported.Votes.{
  SignedMessage, UntilImported, schedule_vote, schedule_by, wait, check_pending, known_keys,
  complete_all, complete, completed, wait_completed, pop_ready,
}
use yeeroot.Crfg.UntilImported.Votes.Keeps.{Chain, status_of, Imported, Each}
use yeeroot.Crfg.UntilImported.Votes
use yeeroot.Crfg.UntilImported.Votes.Safety.{
  World, opened, arrive, import_block, notify, pass_on, Reach-Imported,
}
use yeeroot.Crfg.UntilImported.Votes.Settled.{check_pending-settles}

abbrev five : Chain
five h = if h == 5 then some 5 else none

abbrev commit : CompactCommit
commit = record {
  target_hash = 5;
  target_number = 5;
  precommits =
      record { target_hash = 6; target_number = 6 }
      ∷ record { target_hash = 7; target_number = 7 }
      ∷ record { target_hash = 6; target_number = 6 }
      ∷ [];
  auth_data = [];
}

commit_waits : schedule_wait (status_of five) commit ≡ some (waiting_for 2 ((7, 7) ∷ (6, 6) ∷ []))
unfolding schedule_wait scheduled query_commit query_all query_known canon_number insert_checked
    entry number_of waits
commit_waits = refl

abbrev two_waits : System
two_waits = record {
  shared = record { count = 2; slot = some (1, commit) };
  handles = all_arrived (imported (λ h. h) ((7, 7) ∷ (6, 6) ∷ []));
}

-- Both calls read the counter, then one counts down.
abbrev raced : System
raced = record {
  shared = record { count = 1; slot = some (1, commit) };
  handles = holding 2 ∷ finished none ∷ [];
}

raced-Reach : Reach two_waits raced
unfolding advance
raced-Reach =
    later
      (later (later here (pick [] (arrived 6 6 ∷ []) (arrived 7 7) two_waits.shared))
        (pick (holding 2 ∷ []) [] (arrived 6 6) two_waits.shared))
      (pick (holding 2 ∷ []) [] (holding 2) two_waits.shared)

schedule_wait-gave_example :
    (tally gave raced.handles ≤ 1)
    × ((tally gave raced.handles ≡ 1) ↔ (tally uncounted raced.handles ≡ 0))
schedule_wait-gave_example =
    schedule_wait-gave (status_of five) (λ h. h) 1 2 commit ((7, 7) ∷ (6, 6) ∷ []) raced
      commit_waits (omega arith) raced-Reach

schedule_wait_iff_example :
    (schedule_wait (status_of five) commit ≡ some ready_now) ↔ CommitKnown (status_of five) commit
schedule_wait_iff_example = schedule_wait_iff (status_of five) commit

abbrev vote : SignedMessage
vote = record { target_hash = 6; target_number = 6; id = 1 ∷ []; signature = [] }

abbrev waiting : UntilImported
waiting = record { ready = []; pending = (6, some (vote ∷ [])) ∷ [] }

abbrev six : Chain
six h = if h == 6 then some 6 else five h

vote_waits : schedule_vote (status_of five) vote (opened five).stream ≡ some waiting
unfolding schedule_vote schedule_by wait lookup write
vote_waits = refl

abbrev released : UntilImported
released = record { ready = vote ∷ []; pending = (6, none) ∷ [] }

vote_released : complete 6 6 waiting ≡ released
unfolding complete completed wait_completed lookup write
vote_released = refl

abbrev done : World
done = record {
  chain = six;
  stream = record { ready = []; pending = (6, none) ∷ [] };
  passed = vote ∷ [];
}

done-Reach : Votes.Safety.Reach (opened five) done
unfolding complete completed wait_completed lookup write pop_ready
done-Reach =
    Votes.Safety.later
      (Votes.Safety.later
        (Votes.Safety.later
          (Votes.Safety.later Votes.Safety.here (arrive vote (opened five) waiting vote_waits))
          (import_block 6 6 (record { chain = five; stream = waiting; passed = [] }) refl))
        (notify 6 6 (record { chain = six; stream = waiting; passed = [] }) refl))
      (pass_on vote (record { chain = six; stream = released; passed = [] })
        (record { ready = []; pending = (6, none) ∷ [] }) refl)

Reach-Imported_example : Each (Imported six) (vote ∷ [])
Reach-Imported_example = Reach-Imported five done done-Reach

five_checked : check_pending (status_of five) waiting ≡ some waiting
unfolding check_pending known_keys complete_all
five_checked = refl

six_waits : lookup 6 waiting.pending ≡ some (vote ∷ [])
unfolding lookup
six_waits = refl

check_pending-settles_example : five 6 ≡ none
check_pending-settles_example =
    check_pending-settles five waiting waiting 6 (vote ∷ []) five_checked six_waits
