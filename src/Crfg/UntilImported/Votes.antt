-- ===== src/Crfg/UntilImported/Votes.antt =====
-- core/crfg/src/until_imported.rs: the stream that holds back signed votes, one event at a time, in
-- the order in which `poll` looks at them.
pub mod Keeps
pub mod Safety
pub mod Settled
use yeeroot.Prelude.{ℕ, ◌==◌, Option, none, some, List, [], ◌∷◌, ◌++◌, if◌then◌else◌, or_default}
use yeeroot.Relay.{◌>>=◌}
use yeeroot.Storage.{Key, ℕ_key, StorageMap, lookup, write}
use yeeroot.Crfg.UntilImported.{BlockStatus}

-- The ids and the signature are opaque here.
pub record SignedMessage : Type 0 where
  pub target_hash : ℕ
  pub target_number : ℕ
  pub id : List ℕ
  pub signature : List ℕ

-- The queue of votes to pass on, and the votes that wait for a block.
pub record UntilImported : Type 0 where
  pub ready : List SignedMessage
  pub pending : StorageMap ℕ (List SignedMessage)

unfoldable pub wait : SignedMessage → UntilImported → UntilImported
wait msg s = record s {
  pending =
      write msg.target_hash (some (or_default [] (lookup msg.target_hash s.pending) ++ (msg ∷ [])))
        s.pending;
}

unfoldable pub schedule_by : SignedMessage → Option ℕ → UntilImported → UntilImported
schedule_by msg (some number) s =
    if number == msg.target_number then record s { ready = s.ready ++ (msg ∷ []) } else s
schedule_by msg none s = wait msg s

-- A new vote from the inner stream; an error of the status ends the stream.
unfoldable pub schedule_vote : BlockStatus → SignedMessage → UntilImported → Option UntilImported
schedule_vote status msg s = do found ← status msg.target_hash; some (schedule_by msg found s)

unfoldable pub wait_completed : ℕ → SignedMessage → Option SignedMessage
wait_completed canon_number msg = if canon_number == msg.target_number then some msg else none

-- `filter_map(|m| m.wait_completed(canon_number))`
unfoldable pub completed : ℕ → List SignedMessage → List SignedMessage
completed canon_number [] = []
completed canon_number (msg ∷ msgs) = elim (wait_completed canon_number msg) [
  | some m ↦ m ∷ completed canon_number msgs
  | none ↦ completed canon_number msgs
]

-- The votes for a block that is imported, by an import notification or found by its status.
unfoldable pub complete : ℕ → ℕ → UntilImported → UntilImported
complete hash canon_number s = elim (lookup hash s.pending) [
  | some messages ↦ record {
    ready = s.ready ++ completed canon_number messages;
    pending = write hash none s.pending;
  }
  | none ↦ s
]

-- Every so often: the blocks of waiting votes that are known by now.
unfoldable pub known_keys : BlockStatus → StorageMap ℕ (List SignedMessage) → Option (List (ℕ × ℕ))
known_keys status [] = some []
known_keys status ((hash, none) ∷ rest) = known_keys status rest
known_keys status ((hash, some v) ∷ rest) = do
  found ← status hash
  keys ← known_keys status rest
  elim found [ some number ↦ some ((hash, number) ∷ keys) | none ↦ some keys ]

unfoldable pub complete_all : List (ℕ × ℕ) → UntilImported → UntilImported
complete_all [] s = s
complete_all ((hash, number) ∷ keys) s = complete_all keys (complete hash number s)

unfoldable pub check_pending : BlockStatus → UntilImported → Option UntilImported
check_pending status s = do keys ← known_keys status s.pending; some (complete_all keys s)

-- `ready.pop_front()`
unfoldable pub pop_ready : UntilImported → Option (SignedMessage × UntilImported)
pop_ready s = elim s.ready [ [] ↦ none | msg ∷ rest ↦ some (msg, record s { ready = rest }) ]
