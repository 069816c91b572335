-- ===== src/Crfg/UntilImported/Votes/Settled.antt =====
-- What the periodic check leaves waiting.
use yeeroot.Prelude.{
  ℕ, ◌≡◌, refl, sym, ap, ◌∙◌, subst, inl, inr, ◌==◌, Bool, true, false, none, some, List, [], ◌∷◌,
  ◌||◌, if◌then◌else◌, arith, Option-cases, Bool-cases,
}
use yeeroot.Storage.{ℕ_key, StorageMap, lookup, lookup-write}
use yeeroot.Crfg.UntilImported.Votes.{
  SignedMessage, UntilImported, complete, known_keys, complete_all, check_pending,
}
use yeeroot.Crfg.UntilImported.Votes.Keeps.{Chain, status_of, complete-some, complete-none}
use yeeroot.Crfg.UntilImported.Votes.Safety.{check_pending-eq}

abbrev has_key : ℕ → List (ℕ × ℕ) → Bool
has_key h [] = false
has_key h ((k, n) ∷ keys) = (h == k) || has_key h keys

lookup-complete :
    (h k n : ℕ) (s : UntilImported)
    → lookup h (complete k n s).pending ≡ (if h == k then none else lookup h s.pending)
lookup-complete h k n s = elim (Option-cases (lookup k s.pending)) [
  | inl missing ↦
      ground (arith, ap (λ t. lookup h t.pending) (complete-none k n s missing), missing)
  | inr (ms, found) ↦
      ap (λ t. lookup h t.pending) (complete-some k n s ms found) ∙ lookup-write k h none s.pending
]

lookup-complete_all :
    (h : ℕ) (keys : List (ℕ × ℕ)) (s : UntilImported)
    → lookup h (complete_all keys s).pending ≡ (if has_key h keys then none else lookup h s.pending)
unfolding complete_all
lookup-complete_all h [] s = refl
lookup-complete_all h ((k, n) ∷ keys) s =
    ground (arith, lookup-complete_all h keys (complete k n s), lookup-complete h k n s)

known_keys-has_key :
    (chain : Chain) (h n : ℕ) (pending : StorageMap ℕ (List SignedMessage))
    (ms : List SignedMessage) (keys : List (ℕ × ℕ))
    → lookup h pending ≡ some ms
    → chain h ≡ some n
    → known_keys (status_of chain) pending ≡ some keys
    → has_key h keys ≡ true
unfolding known_keys lookup
known_keys-has_key chain h n [] ms keys found known eq = absurd (ground arith)
known_keys-has_key chain h n ((k, none) ∷ rest) ms keys found known eq =
    known_keys-has_key chain h n rest ms keys (ground arith) known eq
known_keys-has_key chain h n ((k, some v) ∷ rest) ms keys found known eq =
    elim (Option-cases (known_keys (status_of chain) rest)) [
      | inl failed ↦ absurd (ground (arith, failed, eq))
      | inr (ks, e) ↦ elim (Bool-cases (h == k)) [
        | inl same ↦
            let at_k : chain k ≡ some n = subst (λ j. chain j ≡ some n) (ground arith) known in
            let all : (k, n) ∷ ks ≡ keys = ground (arith, e, at_k, eq) in
            subst (λ l. has_key h l ≡ true) all (ground (arith, same))
        | inr other ↦
            let has =
              known_keys-has_key chain h n rest ms ks (ground (arith, other, found)) known e in
            elim (Option-cases (chain k)) [
              | inl unknown ↦
                  let all : ks ≡ keys = ground (arith, e, unknown, eq) in
                  subst (λ l. has_key h l ≡ true) all has
              | inr (m, at_k) ↦
                  let all : (k, m) ∷ ks ≡ keys = ground (arith, e, at_k, eq) in
                  subst (λ l. has_key h l ≡ true) all (ground (arith, has))
            ]
      ]
    ]

-- The periodic check leaves no vote waiting for a block that is known.
pub check_pending-settles :
    (chain : Chain) (s t : UntilImported) (h : ℕ) (ms : List SignedMessage)
    → check_pending (status_of chain) s ≡ some t
    → lookup h t.pending ≡ some ms
    → chain h ≡ none
check_pending-settles chain s t h ms eq found =
    let (keys, keyed, done) = check_pending-eq chain s t eq in
    let left : (if has_key h keys then none else lookup h s.pending) ≡ some ms =
      sym (lookup-complete_all h keys s) ∙ ap (λ u. lookup h u.pending) done ∙ found in
    elim (Option-cases (chain h)) [
      | inl unknown ↦ unknown
      | inr (n, known) ↦ elim (Bool-cases (has_key h keys)) [
        | inl has ↦ absurd (ground (arith, left, has))
        | inr missing ↦ absurd (
            ground (
              arith,
              missing,
              known_keys-has_key chain h n s.pending ms keys (ground (arith, left, missing)) known
                  keyed,
            ))
      ]
    ]
