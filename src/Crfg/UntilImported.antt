-- ===== src/Crfg/UntilImported.antt =====
-- core/crfg/src/until_imported.rs: votes and commits are held back until the blocks that they are
-- about are imported. The status of a block is a parameter: an error, no block, or its number.
pub mod Schedule
pub mod Countdown
pub mod Votes
pub mod Tests
use yeeroot.Prelude.{
  ℕ, suc, ◌+◌, ◌-◌, ◌%◌, ◌^◌, Bool, true, false, Option, none, some, List, [], ◌∷◌, ◌++◌, ◌==◌, not,
  if◌then◌else◌, length, or_default,
}
use yeeroot.Relay.{◌>>=◌}
use yeeroot.Storage.{Key, ℕ_key, StorageMap, lookup, write}

pub record Precommit : Type 0 where
  pub target_hash : ℕ
  pub target_number : ℕ

pub record CompactCommit : Type 0 where
  pub target_hash : ℕ
  pub target_number : ℕ
  pub precommits : List Precommit
  pub auth_data : List ℕ

abbrev pub BlockStatus : Type 0
BlockStatus = ℕ → Option (Option ℕ)

pub data KnownOrUnknown : Type 0 where
  known unknown : ℕ → KnownOrUnknown

unfoldable pub number_of : KnownOrUnknown → ℕ
number_of (known n) = n
number_of (unknown n) = n

-- The blocks that were asked for, the latest first, and how many are unknown.
pub record Checked : Type 0 where
  pub hashes : List (ℕ × KnownOrUnknown)
  pub unknown_count : ℕ

unfoldable pub entry : ℕ → List (ℕ × KnownOrUnknown) → Option KnownOrUnknown
entry h [] = none
entry h ((k, e) ∷ rest) = if k == h then some e else entry h rest

-- A block that was not asked for yet, by its status, and its number.
unfoldable pub insert_checked : ℕ → ℕ → Checked → Option ℕ → Checked × ℕ
insert_checked hash perceived c (some number) =
    (record c { hashes = (hash, known number) ∷ c.hashes }, number)
insert_checked hash perceived c none = (
  record { hashes = (hash, unknown perceived) ∷ c.hashes; unknown_count = c.unknown_count + 1 },
  perceived,
)

unfoldable pub canon_number : BlockStatus → ℕ → ℕ → Checked → Option (Checked × ℕ)
canon_number status hash perceived c = elim (entry hash c.hashes) [
  | some e ↦ some (c, number_of e)
  | none ↦ (status hash >>= λ found. some (insert_checked hash perceived c found))
]

-- Whether the block has the number that is perceived.
unfoldable pub query_known : BlockStatus → ℕ → ℕ → Checked → Option (Checked × Bool)
query_known status hash perceived c = do
  canon ← canon_number status hash perceived c
  some (canon.0, canon.1 == perceived)

-- The loop over the precommits, with its early exit, and the commit's own target behind it.
unfoldable pub query_all : BlockStatus → List Precommit → Checked → Option (Checked × Bool)
query_all status [] c = some (c, true)
query_all status (p ∷ ps) c = do
  asked ← query_known status p.target_hash p.target_number c
  if asked.1 then query_all status ps asked.0 else some (asked.0, false)

unfoldable pub query_commit : BlockStatus → CompactCommit → Option (Checked × Bool)
query_commit status commit = do
  asked ← query_all status commit.precommits (record { hashes = []; unknown_count = 0 })
  if asked.1
      then query_known status commit.target_hash commit.target_number asked.0
      else some (asked.0, false)

-- The waits that are scheduled for the unknown blocks.
unfoldable pub waits : List (ℕ × KnownOrUnknown) → List (ℕ × ℕ)
waits [] = []
waits ((hash, known n) ∷ rest) = waits rest
waits ((hash, unknown n) ∷ rest) = (hash, n) ∷ waits rest

-- What becomes of a commit: it is dropped, it is ready, or a counter is set for it and its waits.
pub data Scheduled : Type 0 where
  dropped ready_now : Scheduled
  waiting_for : ℕ → List (ℕ × ℕ) → Scheduled

unfoldable pub scheduled : Checked × Bool → Scheduled
scheduled (c, false) = dropped
scheduled (c, true) =
    if c.unknown_count == 0 then ready_now else waiting_for c.unknown_count (waits c.hashes)

unfoldable pub schedule_wait : BlockStatus → CompactCommit → Option Scheduled
schedule_wait status commit = do asked ← query_commit status commit; some (scheduled asked)

-- The counter and the commit that the waits of one commit share.
pub record Shared : Type 0 where
  pub count : ℕ
  pub slot : Option (ℕ × CompactCommit)

-- Where a call of `wait_completed` is: it has a target number and the canonical number, it has read
-- the counter, it has given its result, or it has found the numbers to differ.
pub data Handle : Type 0 where
  arrived : ℕ → ℕ → Handle
  holding : ℕ → Handle
  finished : Option (ℕ × CompactCommit) → Handle
  refused : Handle

-- The next access to what is shared: the load, the last reader's take, or a compare-and-swap.
unfoldable pub advance : Handle → Shared → Handle × Shared
advance (arrived target_number canon_number) s =
    if target_number == canon_number then (holding s.count, s) else (refused, s)
advance (holding last_count) s =
    if last_count == 1
    then (finished s.slot, record s { slot = none })
    else if s.count == last_count
    then (finished none, record s { count = (last_count + 2 ^ 64 - 1) % 2 ^ 64 })
    else (holding s.count, s)
advance (finished result) s = (finished result, s)
advance refused s = (refused, s)
