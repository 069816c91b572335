-- ===== src/Pow/Work.antt =====
-- core/consensus/pow/src/pow.rs: the check of a block's proof of work. The hash functions, the
-- reading of a hash as a number and the Merkle library's check of a proof are parameters.
pub mod Sound
use yeeroot.Prelude.{
  ℕ, ◌+◌, ◌*◌, ◌%◌, ◌^◌, ◌&&◌, Bool, true, false, Option, none, some, List, [], ◌∷◌, ◌++◌, ltb,
  ◌==◌, not, if◌then◌else◌, length, take, drop, ◌⊎◌, inl, inr,
}
use yeeroot.Pow.{
  Digests, Header, PowSeal, ProofMulti, ProofNonce, WorkProof, unknown, with_nonce, multi, pow_seal,
  as_sharding_info, find_last,
}
use yeeroot.Pow.Compact.{Proof, OriginalMerkleProof, CompactMerkleProof, ParseError, parse_original}
use yeeroot.Pow.Outcome.{Outcome, ok, err, panic}

abbrev pub max_extra_data_length : ℕ
max_extra_data_length = 32

pub record Hashing (Item : Type 0) : Type 0 where
  -- `header.hash()`, and `hash_of(&(merkle_root, nonce, extra_data))`.
  pub hash : Header Item → ℕ
  pub hash_of : ℕ → ℕ → List ℕ → ℕ
  pub blake2 : List ℕ → List ℕ
  pub pow_target : ℕ → ℕ
  pub validate : Proof ℕ → Bool

unfoldable pub same_bytes : List ℕ → List ℕ → Bool
same_bytes [] [] = true
same_bytes [] (y ∷ ys) = false
same_bytes (x ∷ xs) [] = false
same_bytes (x ∷ xs) (y ∷ ys) = (x == y) && same_bytes xs ys

-- `1u16 << merkle_proof.len() as u16`, where a shift keeps the low four bits of its width.
unfoldable pub merkle_proof_item_count : ProofMulti → ℕ
merkle_proof_item_count p = 2 ^ (length p.merkle_proof % 16)

-- The number of shards that the Merkle proof is over: as many as there are, or twice as many.
unfoldable pub mined_count : ProofMulti → ℕ → Option ℕ
mined_count p shard_count =
    if merkle_proof_item_count p == shard_count
    then some shard_count
    else if merkle_proof_item_count p == shard_count * 2 % 65536
    then some (shard_count * 2 % 65536)
    else none

-- The first four bytes of the hash of the first 36 bytes stand behind these.
unfoldable pub check_extra : (List ℕ → List ℕ) → List ℕ → Bool
check_extra blake2 e_c = same_bytes (take 4 (drop 36 e_c)) (take 4 (blake2 (take 36 e_c)))

unfoldable pub push_seal : {Item : Type 0} → Digests Item → Header Item → PowSeal → Header Item
push_seal d header seal = record header { logs = header.logs ++ (pow_seal d seal ∷ []) }

module _ {Item : Type 0} (d : Digests Item) (h : Hashing Item) where
  -- The hash that the miner of many shards works on.
  unfoldable pub pre_hash : Header Item → PowSeal → ℕ
  pre_hash header seal = h.hash (push_seal d header (record seal { work_proof = unknown }))

  unfoldable pub check_nonce : Header Item → PowSeal → ProofNonce → Outcome (Item × ℕ)
  check_nonce header seal proof_nonce =
      if ltb max_extra_data_length (length proof_nonce.extra_data)
      then err
      else if ltb seal.pow_target (h.pow_target (h.hash (push_seal d header seal)))
      then err
      else ok (pow_seal d seal, h.hash (push_seal d header seal))

  unfoldable pub check_original :
      Header Item → PowSeal → ProofMulti → ParseError ⊎ OriginalMerkleProof ℕ → Outcome (Item × ℕ)
  check_original header seal proof_multi (inl e) = err
  check_original header seal proof_multi (inr original_proof) =
      if not (h.validate original_proof.proof)
      then err
      else if not (check_extra h.blake2 proof_multi.extra_data)
      then err
      else if ltb seal.pow_target (
          h.pow_target (h.hash_of proof_multi.merkle_root proof_multi.nonce proof_multi.extra_data))
      then err
      else ok (pow_seal d seal, h.hash (push_seal d header seal))

  unfoldable pub check_counted :
      Header Item → PowSeal → ProofMulti → ℕ → Option ℕ → Outcome (Item × ℕ)
  check_counted header seal proof_multi num none = err
  check_counted header seal proof_multi num (some count) = check_original header seal proof_multi (
      parse_original (record {
        proof = proof_multi.merkle_proof;
        item = pre_hash header seal;
        root = proof_multi.merkle_root;
        num = num;
        count = count;
      }))

  -- `expect`: a header without shard information panics.
  unfoldable pub check_multi :
      Header Item → PowSeal → ProofMulti → Option (ℕ × ℕ) → Outcome (Item × ℕ)
  check_multi header seal proof_multi none = panic
  check_multi header seal proof_multi (some (shard_num, shard_count)) =
      check_counted header seal proof_multi shard_num (mined_count proof_multi shard_count)

  unfoldable pub check_seal : Header Item → PowSeal → WorkProof → Outcome (Item × ℕ)
  check_seal header seal unknown = err
  check_seal header seal (with_nonce proof_nonce) = check_nonce header seal proof_nonce
  check_seal header seal (multi proof_multi) =
      check_multi header seal proof_multi (find_last (as_sharding_info d) header.logs)

  unfoldable pub check_work_proof : Header Item → PowSeal → Outcome (Item × ℕ)
  check_work_proof header seal = check_seal header seal seal.work_proof
