-- ===== src/Merkle.antt =====
-- core/util/merkle/src/lib.rs: the proof of a block's relayed extrinsics, a Merkle tree over the
-- trees of each shard. The trees and their proofs are those of the library `merkle_light`.
use yeeroot.Prelude.{
  ℕ, ◌^◌, ◌<◌, ◌≡◌, Bool, true, false, Option, none, some, List, [], ◌∷◌, ◌||◌, leb, ◌==◌, not,
  if◌then◌else◌, length, get_elem?,
}

-- A tree from its leaves, its root, the number of its leaves, whether it contains a leaf, and the proof
-- of a leaf as bytes; the root of a proof that bytes encode, and whether that proof validates.
pub record MerkleLib (Tree : Type 0) : Type 0 where
  pub from_leaves : List ℕ → Tree
  pub root : Tree → ℕ
  pub leafs : Tree → ℕ
  pub contains : Tree → ℕ → Bool
  pub gen_proof : Tree → ℕ → List ℕ
  pub proof_root : List ℕ → Option ℕ
  pub proof_validates : List ℕ → Bool

abbrev pub mem : ℕ → List ℕ → Bool
mem h [] = false
mem h (x ∷ xs) = (x == h) || mem h xs

-- A tree has its leaves, over a power of two of them no more, and the proof of a leaf validates and
-- leads to the root.
pub record MerkleLaws {Tree : Type 0} (lib : MerkleLib Tree) : Type 0 where
  pub contains_leaves :
      (x : ℕ) (l : List ℕ) (h : ℕ) → lib.contains (lib.from_leaves (x ∷ l)) h ≡ mem h (x ∷ l)
  pub leafs_leaves :
      (l : List ℕ) (n : ℕ) → length l ≡ 2 ^ n → lib.leafs (lib.from_leaves l) ≡ length l
  pub root_of_proof :
      (t : Tree) (i : ℕ) → i < lib.leafs t → lib.proof_root (lib.gen_proof t i) ≡ some (lib.root t)
  pub proof_valid :
      (t : Tree) (i : ℕ) → i < lib.leafs t → lib.proof_validates (lib.gen_proof t i) ≡ true

pub record MultiLayerProof (Tree : Type 0) : Type 0 where
  pub layer2_merkle : Option Tree
  pub layer2_proof : Option (List ℕ)
  pub layer1_merkles : List (ℕ × Option Tree)

module _ {Tree : Type 0} where
  unfoldable pub new_with_layer2 : Tree → List (ℕ × Option Tree) → MultiLayerProof Tree
  new_with_layer2 layer2_merkle layer1_merkles = record {
    layer2_merkle = some layer2_merkle;
    layer2_proof = none;
    layer1_merkles = layer1_merkles;
  }

  unfoldable pub new_with_poof : List ℕ → List (ℕ × Option Tree) → MultiLayerProof Tree
  new_with_poof layer2_proof layer1_merkles = record {
    layer2_merkle = none;
    layer2_proof = some layer2_proof;
    layer1_merkles = layer1_merkles;
  }

module _ {Tree : Type 0} (lib : MerkleLib Tree) where
  unfoldable pub gen_with : MultiLayerProof Tree → ℕ → Option Tree → Option (MultiLayerProof Tree)
  gen_with m shard_num none = none
  gen_with m shard_num (some tree) =
      if not (length m.layer1_merkles == lib.leafs tree)
      then none
      else if leb (lib.leafs tree) shard_num
      then none
      else (elim (get_elem? m.layer1_merkles shard_num) [
        | some layer1 ↦ some (new_with_poof (lib.gen_proof tree shard_num) (layer1 ∷ []))
        | none ↦ none
      ])

  -- The proof that is sent to one shard.
  unfoldable pub gen_proof : MultiLayerProof Tree → ℕ → Option (MultiLayerProof Tree)
  gen_proof m shard_num = gen_with m shard_num m.layer2_merkle

  unfoldable pub layer2_root : MultiLayerProof Tree → Option ℕ
  layer2_root m = elim m.layer2_merkle [
    | some tree ↦ some (lib.root tree)
    | none ↦ elim m.layer2_proof [ some proof ↦ lib.proof_root proof | none ↦ none ]
  ]

  unfoldable pub contains_in : List (ℕ × Option Tree) → ℕ → ℕ → Bool
  contains_in [] shard hash = false
  contains_in ((num, none) ∷ rest) shard hash = contains_in rest shard hash
  contains_in ((num, some tr) ∷ rest) shard hash =
      if num == shard then lib.contains tr hash else contains_in rest shard hash

  unfoldable pub contains : MultiLayerProof Tree → ℕ → ℕ → Bool
  contains m shard hash = contains_in m.layer1_merkles shard hash
