-- ===== src/Crfg/UntilImported/Schedule/Ready.antt =====
-- When a commit message is passed on.
use yeeroot.Prelude.{
  ℕ, suc, ◌≤◌, ◌<◌, ◌^◌, ◌≡◌, refl, sym, ap, ◌∙◌, subst, ◌⊎◌, ◌↔◌, inl, inr, Bool, true, false,
  some, List, [], ◌∷◌, arith, length, Option-cases,
}
use yeeroot.Crfg.UntilImported.{
  CompactCommit, BlockStatus, Checked, entry, query_known, query_all, query_commit, waits,
  Scheduled, ready_now, waiting_for, scheduled, schedule_wait,
}
use yeeroot.Crfg.UntilImported.Countdown.{
  System, Reach, all_arrived, tally, gave, uncounted, Reach-gave,
}
use yeeroot.Crfg.UntilImported.Schedule.{
  Sound, AllKnown, query_known-Told, query_all-AllKnown, query_known-answers, query_all-answers,
  both,
}

module _ (status : BlockStatus) where
  nothing-Sound : Sound status (record { hashes = []; unknown_count = 0 })
  unfolding entry waits
  nothing-Sound = (λ h n eq. absurd (ground arith), λ h n eq. absurd (ground arith), refl)

  -- All blocks of a commit are known with the numbers that it has for them.
  abbrev pub CommitKnown : CompactCommit → Type 0
  CommitKnown commit =
      AllKnown status commit.precommits
      × (status commit.target_hash ≡ some (some commit.target_number))

  query_commit-step :
      (commit : CompactCommit) (out : Checked)
      → query_commit status commit ≡ some (out, true)
      → (mid : Checked) × (query_all status commit.precommits
            (record { hashes = []; unknown_count = 0 })
          ≡ some (mid, true))
        × (query_known status commit.target_hash commit.target_number mid ≡ some (out, true))
  unfolding query_commit
  query_commit-step commit out eq =
      elim (Option-cases
        (query_all status commit.precommits (record { hashes = []; unknown_count = 0 }))) [
          | inl failed ↦ absurd (ground arith)
          | inr ((mid, true), asked) ↦ (mid, asked, ground arith)
          | inr ((mid, false), asked) ↦ absurd (ground arith)
        ]

  query_commit-told :
      (commit : CompactCommit) (out : Checked)
      → query_commit status commit ≡ some (out, true)
      → (out.unknown_count ≡ length (waits out.hashes))
        × (CommitKnown commit ⊎ (0 < out.unknown_count))
  query_commit-told commit out eq =
      let (mid, all, last) = query_commit-step commit out eq in
      let (sound, up, told) =
        query_all-AllKnown status commit.precommits (record { hashes = []; unknown_count = 0 }) mid
          nothing-Sound all in
      let (sound2, more, told2) =
        query_known-Told status commit.target_hash commit.target_number mid out sound last in
      (
        sound2.2,
        both status (AllKnown status commit.precommits)
            (status commit.target_hash ≡ some (some commit.target_number)) mid.unknown_count
            out.unknown_count more told told2,
      )

  query_commit-answers :
      (commit : CompactCommit)
      → CommitKnown commit
      → (out : Checked) × (query_commit status commit ≡ some (out, true)) × (out.unknown_count ≡ 0)
  unfolding query_commit
  query_commit-answers commit all =
      let (mid, asked, sound, same) =
        query_all-answers status commit.precommits (record { hashes = []; unknown_count = 0 })
          nothing-Sound all.0 in
      let (out, last, sound2, same2) =
        query_known-answers status commit.target_hash commit.target_number mid sound all.1 in
      (out, ground (arith, asked, last), same2 ∙ same)

  scheduled_step :
      (commit : CompactCommit) (r : Scheduled)
      → schedule_wait status commit ≡ some r
      → (asked : Checked × Bool) × (query_commit status commit ≡ some asked) × (scheduled asked ≡ r)
  unfolding schedule_wait
  scheduled_step commit r eq = elim (Option-cases (query_commit status commit)) [
    | inl failed ↦ absurd (ground arith)
    | inr (asked, e) ↦ (asked, e, ground arith)
  ]

  ready_asked :
      (asked : Checked × Bool)
      → scheduled asked ≡ ready_now
      → (asked.1 ≡ true) × (asked.0.unknown_count ≡ 0)
  unfolding scheduled
  ready_asked (c, false) eq = absurd (ground arith)
  ready_asked (c, true) eq = (refl, ground arith)

  waiting_asked :
      (asked : Checked × Bool) (k : ℕ) (ws : List (ℕ × ℕ))
      → scheduled asked ≡ waiting_for k ws
      → (asked.1 ≡ true) × (asked.0.unknown_count ≡ k) × (waits asked.0.hashes ≡ ws) × (0 < k)
  unfolding scheduled
  waiting_asked (c, false) k ws eq = absurd (ground arith)
  waiting_asked (c, true) k ws eq = (refl, ground arith, ground arith, ground arith)

  known_if_ready :
      (commit : CompactCommit) → schedule_wait status commit ≡ some ready_now → CommitKnown commit
  known_if_ready commit eq =
      let ((c, answer), queried, ready) = scheduled_step commit ready_now eq in
      let (answered, zero_unknown) = ready_asked (c, answer) ready in
      let (counted, told) = query_commit-told commit c (queried ∙ ap (λ b. some (c, b)) answered) in
      elim told [ inl all ↦ all | inr pos ↦ absurd (omega (arith, zero_unknown)) ]

  ready_if_known :
      (commit : CompactCommit) → CommitKnown commit → schedule_wait status commit ≡ some ready_now
  unfolding schedule_wait scheduled
  ready_if_known commit all =
      let (out, asked, same) = query_commit-answers commit all in ground (arith, asked, same)

  -- A commit is passed on at once exactly if the blocks of all its precommits and its own target are known,
  -- each with the number that the commit has for it.
  pub schedule_wait_iff :
      (commit : CompactCommit) → (schedule_wait status commit ≡ some ready_now) ↔ CommitKnown commit
  schedule_wait_iff commit = (known_if_ready commit, ready_if_known commit)

  -- The counter is set to the number of waits.
  schedule_wait-count :
      (commit : CompactCommit) (k : ℕ) (ws : List (ℕ × ℕ))
      → schedule_wait status commit ≡ some (waiting_for k ws)
      → (k ≡ length ws) × (0 < k)
  schedule_wait-count commit k ws eq =
      let ((c, answer), queried, waiting) = scheduled_step commit (waiting_for k ws) eq in
      let (answered, count, listed, pos) = waiting_asked (c, answer) k ws waiting in
      let (counted, told) = query_commit-told commit c (queried ∙ ap (λ b. some (c, b)) answered) in
      (sym count ∙ counted ∙ ap length listed, pos)

-- The wait for a block completes with the block's canonical number.
abbrev pub imported : (ℕ → ℕ) → List (ℕ × ℕ) → List (ℕ × ℕ)
imported canon [] = []
imported canon ((hash, target_number) ∷ ws) = (target_number, canon hash) ∷ imported canon ws

length-imported : (canon : ℕ → ℕ) (ws : List (ℕ × ℕ)) → length (imported canon ws) ≡ length ws
length-imported canon [] = refl
length-imported canon ((hash, n) ∷ ws) = ap suc (length-imported canon ws)

-- A commit that has to wait, with the counter that it is given and the calls that complete its waits in
-- any interleaving: never more than one call gives the commit, and one has given it exactly if
-- every call has counted down, so that none is on its way and none was refused for a wrong number.
pub schedule_wait-gave :
    (status : BlockStatus) (canon : ℕ → ℕ) (round k : ℕ) (commit : CompactCommit)
    (ws : List (ℕ × ℕ)) (s : System)
    → schedule_wait status commit ≡ some (waiting_for k ws)
    → k < 2 ^ 64
    → Reach
        (record {
          shared = record { count = k; slot = some (round, commit) };
          handles = all_arrived (imported canon ws);
        })
        s
    → (tally gave s.handles ≤ 1) × ((tally gave s.handles ≡ 1) ↔ (tally uncounted s.handles ≡ 0))
schedule_wait-gave status canon round k commit ws s eq small reach =
    let (count, pos) = schedule_wait-count status commit k ws eq in
    let same : length (imported canon ws) ≡ k = length-imported canon ws ∙ sym count in
    Reach-gave (round, commit) (imported canon ws) s (omega (arith, same)) (omega (arith, same))
      (subst
        (λ n.
          Reach
            (record {
              shared = record { count = n; slot = some (round, commit) };
              handles = all_arrived (imported canon ws);
            })
            s)
        (sym same) reach)
