-- ===== src/Crfg/UntilImported/Schedule.antt =====
-- The questions about the blocks of a commit message, and what their answers tell.
pub mod Ready
use yeeroot.Prelude.{
  ℕ, zero, suc, ◌+◌, ◌≤◌, ◌<◌, ◌^◌, ◌≡◌, ◌≢◌, refl, sym, ap, ◌∙◌, subst, ◌⊎◌, ◌↔◌, inl, inr, Bool,
  true, false, Option, none, some, List, [], ◌∷◌, ◌==◌, if◌then◌else◌, arith, length, Option-cases,
  Bool-cases,
}
use yeeroot.Relay.{◌>>=◌}
use yeeroot.Crfg.UntilImported.{
  Precommit, CompactCommit, BlockStatus, KnownOrUnknown, known, unknown, number_of, Checked, entry,
  insert_checked, canon_number, query_known, query_all, query_commit, waits, Scheduled, dropped,
  ready_now, waiting_for, scheduled, schedule_wait, Shared, Handle, arrived,
}
use yeeroot.Crfg.UntilImported.Countdown.{
  System, Reach, begun, all_arrived, tally, gave, uncounted, Reach-gave,
}

module _ (status : BlockStatus) where
  -- The entries are what the status says, and the unknown ones are counted.
  abbrev pub Sound : Checked → Type 0
  Sound c =
      ((h n : ℕ) → entry h c.hashes ≡ some (known n) → status h ≡ some (some n))
      × ((h n : ℕ)
          → entry h c.hashes ≡ some (unknown n)
          → (status h ≡ some none) × (0 < c.unknown_count))
      × (c.unknown_count ≡ length (waits c.hashes))

  insert_checked-Sound :
      (h p : ℕ) (c : Checked) (found : Option ℕ)
      → Sound c
      → status h ≡ some found
      → Sound (insert_checked h p c found).0
  unfolding insert_checked entry waits
  insert_checked-Sound h p c (some n) (k, u, counted) e =
      (λ j m eq. ground (arith, k j m, e, eq), λ j m eq. ground (arith, u j m, e, eq), counted)
  insert_checked-Sound h p c none (k, u, counted) e = (
    λ j m eq. ground (arith, k j m, e, eq),
    λ j m eq. ground (arith, u j m, e, eq),
    ground (arith, counted),
  )

  -- What one question tells, if the number is as perceived.
  abbrev pub Told : ℕ → ℕ → Checked → Checked → Type 0
  Told h p c after =
      Sound after
      × (c.unknown_count ≤ after.unknown_count)
      × ((status h ≡ some (some p)) ⊎ (0 < after.unknown_count))

  query_seen :
      (h p : ℕ) (c : Checked) (e : KnownOrUnknown)
      → entry h c.hashes ≡ some e
      → query_known status h p c ≡ some (c, number_of e == p)
  unfolding query_known canon_number
  query_seen h p c e seen = ground (arith, seen)

  query_new :
      (h p : ℕ) (c : Checked) (found : Option ℕ)
      → entry h c.hashes ≡ none
      → status h ≡ some found
      → query_known status h p c
        ≡ some ((insert_checked h p c found).0, (insert_checked h p c found).1 == p)
  unfolding query_known canon_number
  query_new h p c found unseen e = ground (arith, unseen, e)

  query_failed :
      (h p : ℕ) (c : Checked)
      → entry h c.hashes ≡ none
      → status h ≡ none
      → query_known status h p c ≡ none
  unfolding query_known canon_number
  query_failed h p c unseen e = ground (arith, unseen, e)

  seen-Told :
      (h p : ℕ) (c : Checked) (e : KnownOrUnknown)
      → Sound c
      → entry h c.hashes ≡ some e
      → (number_of e == p) ≡ true
      → Told h p c c
  unfolding number_of
  seen-Told h p c (known n) sound seen right =
      let same : n ≡ p = ground arith in
      (sound, omega arith, inl (sound.0 h n seen ∙ ap (λ m. some (some m)) same))
  seen-Told h p c (unknown n) sound seen right = (sound, omega arith, inr (sound.1 h n seen).1)

  new-Told :
      (h p : ℕ) (c : Checked) (found : Option ℕ)
      → Sound c
      → status h ≡ some found
      → ((insert_checked h p c found).1 == p) ≡ true
      → Told h p c (insert_checked h p c found).0
  unfolding insert_checked
  new-Told h p c (some n) sound e right =
      let same : n ≡ p = ground arith in
      (
        insert_checked-Sound h p c (some n) sound e,
        omega arith,
        inl (e ∙ ap (λ m. some (some m)) same),
      )
  new-Told h p c none sound e right =
      (insert_checked-Sound h p c none sound e, omega arith, inr (omega arith))

  pub query_known-Told :
      (h p : ℕ) (c after : Checked)
      → Sound c
      → query_known status h p c ≡ some (after, true)
      → Told h p c after
  query_known-Told h p c after sound eq = elim (Option-cases (entry h c.hashes)) [
    | inr (e, seen) ↦
        let same : ◌≡◌ {A = Checked × Bool} (c, number_of e == p) (after, true) =
          ground (arith, query_seen h p c e seen, eq) in
        subst (Told h p c) (ap (λ r. r.0) same) (seen-Told h p c e sound seen (ap (λ r. r.1) same))
    | inl unseen ↦ elim (Option-cases (status h)) [
      | inl failed ↦ absurd (ground (arith, query_failed h p c unseen failed, eq))
      | inr (found, e) ↦
          let r = insert_checked h p c found in
          let same : ◌≡◌ {A = Checked × Bool} (r.0, r.1 == p) (after, true) =
            ground (arith, query_new h p c found unseen e, eq) in
          subst (Told h p c) (ap (λ x. x.0) same)
            (new-Told h p c found sound e (ap (λ x. x.1) same))
    ]
  ]

  abbrev pub AllKnown : List Precommit → Type 0
  AllKnown [] = Unit
  AllKnown (p ∷ ps) = (status p.target_hash ≡ some (some p.target_number)) × AllKnown ps

  query_step :
      (p : Precommit) (ps : List Precommit) (c out : Checked)
      → query_all status (p ∷ ps) c ≡ some (out, true)
      → (mid : Checked) × (query_known status p.target_hash p.target_number c ≡ some (mid, true))
        × (query_all status ps mid ≡ some (out, true))
  unfolding query_all
  query_step p ps c out eq =
      elim (Option-cases (query_known status p.target_hash p.target_number c)) [
        | inl failed ↦ absurd (ground arith)
        | inr ((mid, true), asked) ↦ (mid, asked, ground arith)
        | inr ((mid, false), asked) ↦ absurd (ground arith)
      ]

  pub both : (A B : Type 0) (m n : ℕ) → m ≤ n → A ⊎ (0 < m) → B ⊎ (0 < n) → (A × B) ⊎ (0 < n)
  both A B m n le (inl a) (inl b) = inl (a, b)
  both A B m n le (inl a) (inr pos) = inr pos
  both A B m n le (inr pos) told = inr (omega arith)

  pub query_all-AllKnown :
      (ps : List Precommit) (c out : Checked)
      → Sound c
      → query_all status ps c ≡ some (out, true)
      → Sound out × (c.unknown_count ≤ out.unknown_count) × (AllKnown ps ⊎ (0 < out.unknown_count))
  unfolding query_all
  query_all-AllKnown [] c out sound eq =
      let same : c ≡ out = ground arith in
      (subst Sound same sound, omega (arith, ap (λ x. x.unknown_count) same), inl tt)
  query_all-AllKnown (p ∷ ps) c out sound eq =
      let (mid, first, rest) = query_step p ps c out eq in
      let (sound2, more, told) = query_known-Told p.target_hash p.target_number c mid sound first in
      let (sound3, more2, told2) = query_all-AllKnown ps mid out sound2 rest in
      (
        sound3,
        omega (arith, more, more2),
        both (status p.target_hash ≡ some (some p.target_number)) (AllKnown ps) mid.unknown_count
            out.unknown_count more2 told told2,
      )

  -- All blocks known: a question changes no count and is answered.
  pub query_known-answers :
      (h p : ℕ) (c : Checked)
      → Sound c
      → status h ≡ some (some p)
      → (after : Checked) × (query_known status h p c ≡ some (after, true))
        × Sound after
        × (after.unknown_count ≡ c.unknown_count)
  unfolding insert_checked number_of
  query_known-answers h p c sound e = elim (Option-cases (entry h c.hashes)) [
    | inl unseen ↦ (
      (insert_checked h p c (some p)).0,
      ground (arith, query_new h p c (some p) unseen e),
      insert_checked-Sound h p c (some p) sound e,
      refl,
    )
    | inr (known n, seen) ↦
        (c, ground (arith, query_seen h p c (known n) seen, sound.0 h n seen, e), sound, refl)
    | inr (unknown n, seen) ↦ absurd (ground (arith, sound.1 h n seen, e))
  ]

  pub query_all-answers :
      (ps : List Precommit) (c : Checked)
      → Sound c
      → AllKnown ps
      → (out : Checked) × (query_all status ps c ≡ some (out, true))
        × Sound out
        × (out.unknown_count ≡ c.unknown_count)
  unfolding query_all
  query_all-answers [] c sound all = (c, refl, sound, refl)
  query_all-answers (p ∷ ps) c sound all =
      let (mid, asked, sound2, same) =
        query_known-answers p.target_hash p.target_number c sound all.0 in
      let (out, rest, sound3, same2) = query_all-answers ps mid sound2 all.1 in
      (out, ground (arith, asked, rest), sound3, same2 ∙ same)
