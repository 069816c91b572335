-- ===== src/Pow/Compact.antt =====
-- core/consensus/pow/src/pow.rs: the compact form of the Merkle proof of a shard's header. The
-- proofs of the library `merkle_light` are nodes, from the leaf to the root, and the sides of the
-- leaf's way up; reading the leaf and the root of one is the library's.
pub mod Climb
pub mod RoundTrip
use yeeroot.Prelude.{
  ℕ, zero, suc, ◌-◌, ◌/◌, ◌%◌, Bool, List, [], ◌∷◌, ◌++◌, leb, ◌==◌, not, if◌then◌else◌, length,
  take, drop, ◌⊎◌, inl, inr,
}
use yeeroot.Sharding.ShardNum.{log2, pow2}

pub record Proof (H : Type 0) : Type 0 where
  pub lemma : List H
  pub path : List Bool

pub record OriginalMerkleProof (H : Type 0) : Type 0 where
  pub proof : Proof H
  pub num : ℕ
  pub count : ℕ

pub record CompactMerkleProof (H : Type 0) : Type 0 where
  pub proof : List H
  pub item : H
  pub root : H
  pub num : ℕ
  pub count : ℕ

pub data ParseError : Type 0 where
  invalid_num invalid_count invalid_proof_size : ParseError

-- One side for each of `height` rounds: `true` where the node is a left child.
unfoldable pub path_of : ℕ → ℕ → List Bool
path_of zero tmp_num = []
path_of (suc height) tmp_num = (tmp_num % 2 == 0) ∷ path_of height (tmp_num / 2)

module _ {H : Type 0} where
  unfoldable pub parse_original : CompactMerkleProof H → ParseError ⊎ OriginalMerkleProof H
  parse_original cmp =
      if leb cmp.count cmp.num
      then inl invalid_num
      else if not (pow2 (log2 cmp.count) == cmp.count)
      then inl invalid_count
      else if not (length cmp.proof == log2 cmp.count)
      then inl invalid_proof_size
      else inr (record {
        proof = record {
          lemma = cmp.item ∷ (cmp.proof ++ (cmp.root ∷ []));
          path = path_of (log2 cmp.count) cmp.num;
        };
        num = cmp.num;
        count = cmp.count;
      })

  -- `From`: the nodes at `1 .. len - 1`, by the library's readings of the leaf and the root.
  unfoldable pub to_compact :
      (Proof H → H) → (Proof H → H) → OriginalMerkleProof H → CompactMerkleProof H
  to_compact proof_item proof_root omp = record {
    proof = take (length omp.proof.lemma - 1 - 1) (drop 1 omp.proof.lemma);
    item = proof_item omp.proof;
    root = proof_root omp.proof;
    num = omp.num;
    count = omp.count;
  }
