-- ===== src/Pow/Outgoing.antt =====
-- core/consensus/pow/src/pow.rs: `gen_extrinsic_proof`, the proof of the transfers that a block sends
-- to other shards. Decoding an extrinsic, hashing it and the shard number of an account are
-- parameters, as is the Merkle library.
pub mod Delivered
use yeeroot.Prelude.{
  ℕ, zero, suc, ◌+◌, Bool, true, false, Option, none, some, List, [], ◌∷◌, ◌++◌, map, ◌==◌, not,
  if◌then◌else◌, or_default,
}
use yeeroot.Storage.{Key, ℕ_key, StorageMap, lookup, write}
use yeeroot.Pow.Outcome.{Outcome, ok, panic, ◌>>=◌}
use yeeroot.Merkle.{MerkleLib, MultiLayerProof, new_with_layer2}

pub data Call : Type 0 where
  balances_transfer : ℕ → ℕ → Call
  assets_transfer : List ℕ → ℕ → ℕ → ℕ → Call
  other_call : Call

pub record UncheckedExtrinsic : Type 0 where
  pub is_signed : Bool
  pub function : Call

pub record Extrinsics : Type 0 where
  pub decode : List ℕ → Option UncheckedExtrinsic
  pub hash : List ℕ → ℕ
  pub shard_num_for : ℕ → ℕ → Option ℕ

unfoldable pub dest_of : Call → Option ℕ
dest_of (balances_transfer dest value) = some dest
dest_of (assets_transfer shard_code id dest value) = some dest
dest_of other_call = none

unfoldable pub sent_by : Extrinsics → ℕ → UncheckedExtrinsic → Option ℕ
sent_by x shard_count e =
    if e.is_signed
    then (elim (dest_of e.function) [ some dest ↦ x.shard_num_for dest shard_count | none ↦ none ])
    else none

-- The shard of the destination of a signed transfer.
unfoldable pub dest_shard : Extrinsics → ℕ → List ℕ → Option ℕ
dest_shard x shard_count bytes = elim (x.decode bytes) [
  | some e ↦ sent_by x shard_count e
  | none ↦ none
]

-- The hashes of the extrinsics for each shard.
abbrev pub ExtrinsicShard : Type 0
ExtrinsicShard = StorageMap ℕ (List ℕ)

unfoldable pub sent_hashes : ℕ → ExtrinsicShard → List ℕ
sent_hashes num extrinsic_shard = or_default [] (lookup num extrinsic_shard)

unfoldable pub push_hash : ℕ → ℕ → ExtrinsicShard → ExtrinsicShard
push_hash num hash extrinsic_shard =
    write num (some (sent_hashes num extrinsic_shard ++ (hash ∷ []))) extrinsic_shard

-- One round, with the results that are left; `exe_result[i]` is out of range if there is none.
unfoldable pub note_sent : ℕ → ℕ → Option ℕ → List Bool → ExtrinsicShard → Outcome ExtrinsicShard
note_sent shard_num hash none exe_result m = ok m
note_sent shard_num hash (some num) [] m = if num == shard_num then ok m else panic
note_sent shard_num hash (some num) (result ∷ rest) m =
    if num == shard_num then ok m else if result then ok (push_hash num hash m) else ok m

abbrev pub tail : List Bool → List Bool
tail [] = []
tail (x ∷ xs) = xs

unfoldable pub collect :
    Extrinsics → ℕ → ℕ → List (List ℕ) → List Bool → ExtrinsicShard → Outcome ExtrinsicShard
collect x shard_num shard_count [] exe_result m = ok m
collect x shard_num shard_count (bytes ∷ body) exe_result m = do
  m2 ← note_sent shard_num (x.hash bytes) (dest_shard x shard_count bytes) exe_result m
  collect x shard_num shard_count body (tail exe_result) m2

module _ {Tree : Type 0} (lib : MerkleLib Tree) where
  unfoldable pub layer1_tree : Option (List ℕ) → Option Tree
  layer1_tree (some exs) = some (lib.from_leaves exs)
  layer1_tree none = none

  -- The default hash is zero.
  unfoldable pub layer2_leaf : Option Tree → ℕ
  layer2_leaf (some tree) = lib.root tree
  layer2_leaf none = 0

  -- `for i in 0..shard_count`, with the rounds that are left.
  unfoldable pub layer1_merkles : ℕ → ℕ → ExtrinsicShard → List (ℕ × Option Tree)
  layer1_merkles zero i m = []
  layer1_merkles (suc rounds) i m = (i, layer1_tree (lookup i m)) ∷ layer1_merkles rounds (i + 1) m

  unfoldable pub layer2_leaves : List (ℕ × Option Tree) → List ℕ
  layer2_leaves layer1 = map (λ entry. layer2_leaf entry.1) layer1

  unfoldable pub layered : ℕ → ExtrinsicShard → ℕ × MultiLayerProof Tree
  layered shard_count m =
      let layer1 = layer1_merkles shard_count 0 m in
      let layer2_tree = lib.from_leaves (layer2_leaves layer1) in
      (lib.root layer2_tree, new_with_layer2 layer2_tree layer1)

  -- The shard information is that of the header; without it the node panics.
  unfoldable pub gen_extrinsic_proof :
      Extrinsics → Option (ℕ × ℕ) → List (List ℕ) → List Bool → Outcome (ℕ × MultiLayerProof Tree)
  gen_extrinsic_proof x none body exe_result = panic
  gen_extrinsic_proof x (some (shard_num, shard_count)) body exe_result = do
    m ← collect x shard_num shard_count body exe_result []
    ok (layered shard_count m)
