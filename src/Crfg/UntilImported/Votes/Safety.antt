-- ===== src/Crfg/UntilImported/Votes/Safety.antt =====
-- What the stream of votes passes on, while the chain grows.
use yeeroot.Prelude.{
  ℕ, ◌≡◌, refl, subst, inl, inr, ◌==◌, Option, none, some, List, [], ◌∷◌, if◌then◌else◌, arith,
  Option-cases,
}
use yeeroot.Storage.{ℕ_key, StorageMap, lookup}
use yeeroot.Crfg.UntilImported.Votes.{
  SignedMessage, UntilImported, schedule_by, schedule_vote, complete, known_keys, complete_all,
  check_pending, pop_ready,
}
use yeeroot.Crfg.UntilImported.Votes.Keeps.{
  Each, Each-mono, Chain, status_of, Imported, Filed, Good, complete-Good, known_keys-Keys,
  complete_all-Good, schedule_by-Good,
}

-- The stream with the chain and the votes that it has passed on.
pub record World : Type 0 where
  pub chain : Chain
  pub stream : UntilImported
  pub passed : List SignedMessage

pub data Step : World → World → Type 0 where
  arrive :
      (msg : SignedMessage) (w : World) (s : UntilImported)
      → schedule_vote (status_of w.chain) msg w.stream ≡ some s
      → Step w (record w { stream = s })
  import_block :
      (hash number : ℕ) (w : World)
      → w.chain hash ≡ none
      → Step w (record w { chain = λ h. if h == hash then some number else w.chain h })
  notify :
      (hash number : ℕ) (w : World)
      → w.chain hash ≡ some number
      → Step w (record w { stream = complete hash number w.stream })
  interval :
      (w : World) (s : UntilImported)
      → check_pending (status_of w.chain) w.stream ≡ some s
      → Step w (record w { stream = s })
  pass_on :
      (msg : SignedMessage) (w : World) (s : UntilImported)
      → pop_ready w.stream ≡ some (msg, s)
      → Step w (record w { stream = s; passed = msg ∷ w.passed })

pub data Reach (start : World) : World → Type 0 where
  here : Reach start start
  later : {w v : World} → Reach start w → Step w v → Reach start v

schedule_vote-eq :
    (chain : Chain) (msg : SignedMessage) (s t : UntilImported)
    → schedule_vote (status_of chain) msg s ≡ some t
    → schedule_by msg (chain msg.target_hash) s ≡ t
unfolding schedule_vote
schedule_vote-eq chain msg s t eq = ground (arith, eq)

pub check_pending-eq :
    (chain : Chain) (s t : UntilImported)
    → check_pending (status_of chain) s ≡ some t
    → (keys : List (ℕ × ℕ)) × (known_keys (status_of chain) s.pending ≡ some keys)
      × (complete_all keys s ≡ t)
unfolding check_pending
check_pending-eq chain s t eq = elim (Option-cases (known_keys (status_of chain) s.pending)) [
  | inl failed ↦ absurd (ground (arith, failed, eq))
  | inr (keys, e) ↦ (keys, e, ground (arith, e, eq))
]

Imported-mono :
    (chain : Chain) (hash number : ℕ) (m : SignedMessage)
    → chain hash ≡ none
    → Imported chain m
    → Imported (λ h. if h == hash then some number else chain h) m
Imported-mono chain hash number m new here_now = ground (arith, new, here_now)

popped :
    (msg : SignedMessage) (t : UntilImported) (pending : StorageMap ℕ (List SignedMessage))
    (l : List SignedMessage)
    → ◌≡◌ {A = Option (SignedMessage × UntilImported)}
        (elim l [ [] ↦ none | m ∷ rest ↦ some (m, record { ready = rest; pending = pending }) ])
        (some (msg, t))
    → (l ≡ msg ∷ t.ready) × (pending ≡ t.pending)
popped msg t pending [] eq = absurd (ground arith)
popped msg t pending (m ∷ rest) eq = (ground arith, ground arith)

pop_ready-eq :
    (msg : SignedMessage) (s t : UntilImported)
    → pop_ready s ≡ some (msg, t)
    → (s.ready ≡ msg ∷ t.ready) × (s.pending ≡ t.pending)
unfolding pop_ready
pop_ready-eq msg s t eq = popped msg t s.pending s.ready eq

-- What holds in every world that the steps reach.
unfoldable pub Safe : World → Type 0
Safe w = Good w.chain w.stream × Each (Imported w.chain) w.passed

Step-Safe : (w v : World) → Safe w → Step w v → Safe v
unfolding Safe Good
Step-Safe _ _ safe (arrive msg w s eq) = (
  subst (Good w.chain) (schedule_vote-eq w.chain msg w.stream s eq)
      (schedule_by-Good w.chain msg (w.chain msg.target_hash) w.stream refl safe.0),
  safe.1,
)
Step-Safe _ _ safe (import_block hash number w new) =
    let grow = Imported-mono w.chain hash number in
    let after : Chain = λ h. if h == hash then some number else w.chain h in
    (
      (
        Each-mono (Imported w.chain) (Imported after) w.stream.ready (λ m. grow m new) safe.0.0,
        safe.0.1,
      ),
      Each-mono (Imported w.chain) (Imported after) w.passed (λ m. grow m new) safe.1,
    )
Step-Safe _ _ safe (notify hash number w known) =
    (complete-Good w.chain hash number w.stream known safe.0, safe.1)
Step-Safe _ _ safe (interval w s eq) =
    let (keys, found, done) = check_pending-eq w.chain w.stream s eq in
    (
      subst (Good w.chain) done (
          complete_all-Good w.chain keys w.stream
            (known_keys-Keys w.chain w.stream.pending keys found) safe.0),
      safe.1,
    )
Step-Safe _ _ safe (pass_on msg w s eq) =
    let (front, same) = pop_ready-eq msg w.stream s eq in
    let both = subst (Each (Imported w.chain)) front safe.0.0 in
    ((both.1, subst Filed same safe.0.1), (both.0, safe.1))

-- The chain at the start, with nothing held back.
abbrev pub opened : Chain → World
opened chain = record { chain = chain; stream = record { ready = []; pending = [] }; passed = [] }

opened-Safe : (chain : Chain) → Safe (opened chain)
unfolding Safe Good lookup
opened-Safe chain = ((tt, λ h ms eq. absurd (ground arith)), tt)

Reach-Safe : (chain : Chain) (w : World) → Reach (opened chain) w → Safe w
Reach-Safe chain w here = opened-Safe chain
Reach-Safe chain w (later {w = m} before step) = Step-Safe m w (Reach-Safe chain m before) step

-- In any order of votes, imports, notifications and checks, a vote that the stream has passed on
-- is for a block that is imported, and has that block's number.
pub Reach-Imported :
    (chain : Chain) (w : World) → Reach (opened chain) w → Each (Imported w.chain) w.passed
unfolding Safe
Reach-Imported chain w reach = (Reach-Safe chain w reach).1
