-- ===== src/Crfg/UntilImported/Votes/Keeps.antt =====
-- Votes are filed under their blocks, and passed on for imported blocks only: each operation
-- keeps this.
use yeeroot.Prelude.{
  ℕ, ◌≡◌, refl, sym, subst, inl, inr, ◌==◌, Bool, true, false, Option, none, some, List, [], ◌∷◌,
  ◌++◌, if◌then◌else◌, or_default, arith, Option-cases, Bool-cases,
}
use yeeroot.Storage.{ℕ_key, StorageMap, lookup, write, lookup-write}
use yeeroot.Crfg.UntilImported.{BlockStatus}
use yeeroot.Crfg.UntilImported.Votes.{
  SignedMessage, UntilImported, wait, schedule_by, wait_completed, completed, complete, known_keys,
  complete_all,
}

abbrev pub Each : (SignedMessage → Type 0) → List SignedMessage → Type 0
Each P [] = Unit
Each P (m ∷ ms) = P m × Each P ms

pub Each-append :
    (P : SignedMessage → Type 0) (xs ys : List SignedMessage)
    → Each P xs
    → Each P ys
    → Each P (xs ++ ys)
Each-append P [] ys a b = b
Each-append P (x ∷ xs) ys a b = (a.0, Each-append P xs ys a.1 b)

pub Each-mono :
    (P Q : SignedMessage → Type 0) (xs : List SignedMessage)
    → ((m : SignedMessage) → P m → Q m)
    → Each P xs
    → Each Q xs
Each-mono P Q [] f a = tt
Each-mono P Q (x ∷ xs) f a = (f x a.0, Each-mono P Q xs f a.1)

-- The imported blocks, with their numbers.
abbrev pub Chain : Type 0
Chain = ℕ → Option ℕ

abbrev pub status_of : Chain → BlockStatus
status_of chain hash = some (chain hash)

-- The block of a vote is imported, with the number that the vote has for it.
abbrev pub Imported : Chain → SignedMessage → Type 0
Imported chain msg = chain msg.target_hash ≡ some msg.target_number

-- Votes are kept under the block that they are about.
abbrev pub Filed : StorageMap ℕ (List SignedMessage) → Type 0
Filed pending =
    (h : ℕ) (ms : List SignedMessage)
    → lookup h pending ≡ some ms
    → Each (λ m. m.target_hash ≡ h) ms

unfoldable pub Good : Chain → UntilImported → Type 0
Good chain s = Each (Imported chain) s.ready × Filed s.pending

completed-Imported :
    (chain : Chain) (h n : ℕ) (ms : List SignedMessage)
    → chain h ≡ some n
    → Each (λ m. m.target_hash ≡ h) ms
    → Each (Imported chain) (completed n ms)
unfolding completed wait_completed
completed-Imported chain h n [] e filed = tt
completed-Imported chain h n (m ∷ ms) e filed =
    kept (n == m.target_number) refl (completed-Imported chain h n ms e filed.1)
  where
    kept :
        (b : Bool)
        → (n == m.target_number) ≡ b
        → Each (Imported chain) (completed n ms)
        → Each (Imported chain) (elim (if b then some m else none) [
          | some k ↦ k ∷ completed n ms
          | none ↦ completed n ms
        ])
    kept true eq rest = (ground (arith, filed.0, e, eq), rest)
    kept false eq rest = rest

write-Filed :
    (k : ℕ) (o : Option (List SignedMessage)) (pending : StorageMap ℕ (List SignedMessage))
    → ((ms : List SignedMessage) → o ≡ some ms → Each (λ m. m.target_hash ≡ k) ms)
    → Filed pending
    → Filed (write k o pending)
write-Filed k o pending new filed h ms found = elim (Bool-cases (h == k)) [
  | inl same ↦
      let e : h ≡ k = ground arith in
      subst (λ j. Each (λ m. m.target_hash ≡ j) ms) (sym e)
        (new ms (ground (arith, lookup-write k h o pending, same, found)))
  | inr other ↦ filed h ms (ground (arith, lookup-write k h o pending, other, found))
]

waiting_with :
    (msg : SignedMessage) (o : Option (List SignedMessage))
    → ((ms : List SignedMessage) → o ≡ some ms → Each (λ m. m.target_hash ≡ msg.target_hash) ms)
    → Each (λ m. m.target_hash ≡ msg.target_hash) (or_default [] o ++ (msg ∷ []))
waiting_with msg none old = (refl, tt)
waiting_with msg (some ms) old =
    Each-append (λ m. m.target_hash ≡ msg.target_hash) ms (msg ∷ []) (old ms refl) (refl, tt)

wait-Good :
    (chain : Chain) (msg : SignedMessage) (s : UntilImported)
    → Good chain s
    → Good chain (wait msg s)
unfolding Good wait
wait-Good chain msg s g =
    let h = msg.target_hash in
    let all = waiting_with msg (lookup h s.pending) (g.1 h) in
    (
      g.0,
      write-Filed h (some (or_default [] (lookup h s.pending) ++ (msg ∷ []))) s.pending
          (λ ms eq. subst (Each (λ m. m.target_hash ≡ h)) (ground (arith, eq)) all) g.1,
    )

pub complete-some :
    (h n : ℕ) (s : UntilImported) (ms : List SignedMessage)
    → lookup h s.pending ≡ some ms
    → complete h n s
      ≡ record { ready = s.ready ++ completed n ms; pending = write h none s.pending }
unfolding complete
complete-some h n s ms found = ground (arith, found)

pub complete-none : (h n : ℕ) (s : UntilImported) → lookup h s.pending ≡ none → complete h n s ≡ s
unfolding complete
complete-none h n s found = ground (arith, found)

pub complete-Good :
    (chain : Chain) (h n : ℕ) (s : UntilImported)
    → chain h ≡ some n
    → Good chain s
    → Good chain (complete h n s)
unfolding Good
complete-Good chain h n s e g = elim (Option-cases (lookup h s.pending)) [
  | inl unknown ↦
      subst (λ t. Each (Imported chain) t.ready × Filed t.pending)
        (sym (complete-none h n s unknown)) g
  | inr (ms, found) ↦
      subst (λ t. Each (Imported chain) t.ready × Filed t.pending)
        (sym (complete-some h n s ms found))
        (
          Each-append (Imported chain) s.ready (completed n ms) g.0
              (completed-Imported chain h n ms e (g.1 h ms found)),
          write-Filed h none s.pending (λ l eq. absurd (ground (arith, eq))) g.1,
        )
]

-- Every key that the check finds is a block of the chain.
abbrev pub Keys : Chain → List (ℕ × ℕ) → Type 0
Keys chain [] = Unit
Keys chain ((h, n) ∷ keys) = (chain h ≡ some n) × Keys chain keys

known_nil : {keys : List (ℕ × ℕ)} → some [] ≡ some keys → [] ≡ keys
known_nil eq = ground (arith, eq)

pub known_keys-Keys :
    (chain : Chain) (pending : StorageMap ℕ (List SignedMessage)) (keys : List (ℕ × ℕ))
    → known_keys (status_of chain) pending ≡ some keys
    → Keys chain keys
unfolding known_keys
known_keys-Keys chain [] keys eq = subst (Keys chain) (known_nil eq) tt
known_keys-Keys chain ((h, none) ∷ rest) keys eq = known_keys-Keys chain rest keys eq
known_keys-Keys chain ((h, some v) ∷ rest) keys eq =
    elim (Option-cases (known_keys (status_of chain) rest)) [
      | inl failed ↦ absurd (ground (arith, failed, eq))
      | inr (ks, e) ↦ elim (Option-cases (chain h)) [
        | inl unknown ↦ known_keys-Keys chain rest keys (ground (arith, e, unknown, eq))
        | inr (n, known) ↦
            let same : (h, n) ∷ ks ≡ keys = ground (arith, e, known, eq) in
            subst (Keys chain) same (known, known_keys-Keys chain rest ks e)
      ]
    ]

pub complete_all-Good :
    (chain : Chain) (keys : List (ℕ × ℕ)) (s : UntilImported)
    → Keys chain keys
    → Good chain s
    → Good chain (complete_all keys s)
unfolding complete_all
complete_all-Good chain [] s known g = g
complete_all-Good chain ((h, n) ∷ keys) s known g =
    complete_all-Good chain keys (complete h n s) known.1 (complete-Good chain h n s known.0 g)

pub schedule_by-Good :
    (chain : Chain) (msg : SignedMessage) (found : Option ℕ) (s : UntilImported)
    → chain msg.target_hash ≡ found
    → Good chain s
    → Good chain (schedule_by msg found s)
unfolding schedule_by Good
schedule_by-Good chain msg none s e g = wait-Good chain msg s g
schedule_by-Good chain msg (some n) s e g = choose (n == msg.target_number) refl g
  where
    choose :
        (b : Bool)
        → (n == msg.target_number) ≡ b
        → Good chain s
        → Good chain (if b then record s { ready = s.ready ++ (msg ∷ []) } else s)
    choose true right good = (
      Each-append (Imported chain) s.ready (msg ∷ []) good.0 (ground (arith, e, right), tt),
      good.1,
    )
    choose false wrong good = good
