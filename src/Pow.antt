-- ===== src/Pow.antt =====
-- core/consensus/pow/src (pow.rs, digest.rs, extra_data.rs, lib.rs) and core/sharding/src/lib.rs: the
-- seal of a block, and the entries of a header's digest. A hash or an account is a number.
pub mod Outcome
pub mod Compact
pub mod Target
pub mod Work
pub mod Verifier
pub mod Outgoing
pub mod Tests
use yeeroot.Prelude.{
  ℕ, ◌&&◌, Bool, true, Option, none, some, List, [], ◌∷◌, ◌++◌, leb, ◌==◌, if◌then◌else◌, length,
  get_or, drop,
}
use yeeroot.Relay.{Reader, ◌>>=◌}
use yeeroot.Sharding.ScaleOut.{ScaleOutPhase}

-- Classical proof of work with extra data.
pub record ProofNonce : Type 0 where
  pub extra_data : List ℕ
  pub nonce : ℕ

-- Proof of work for the headers of many shards at once. The extra data has forty bytes.
pub record ProofMulti : Type 0 where
  pub extra_data : List ℕ
  pub merkle_root : ℕ
  pub nonce : ℕ
  pub merkle_proof : List ℕ

pub data WorkProof : Type 0 where
  unknown : WorkProof
  with_nonce : ProofNonce → WorkProof
  multi : ProofMulti → WorkProof

pub record PowSeal : Type 0 where
  pub authority_id : ℕ
  pub pow_target : ℕ
  pub timestamp : ℕ
  pub work_proof : WorkProof
  pub relay_proof : ℕ

-- What a digest item is to the node, with the codec of what it holds: a consensus item has the id
-- of its engine.
pub record Digests (Item : Type 0) : Type 0 where
  pub consensus : ℕ → List ℕ → Item
  pub other : List ℕ → Item
  pub as_consensus : Item → Option (ℕ × List ℕ)
  pub as_other : Item → Option (List ℕ)
  pub yee_pow_engine_id : ℕ
  pub encode_seal : PowSeal → List ℕ
  pub decode_seal : List ℕ → Option PowSeal
  pub encode_num : ℕ → List ℕ
  pub decode_num : Reader ℕ
  pub encode_phase : ScaleOutPhase → List ℕ
  pub decode_phase : List ℕ → Option ScaleOutPhase

-- The fields of a header that the code reads, and those that only its hash reads.
pub record Header (Item : Type 0) : Type 0 where
  pub parent_hash : ℕ
  pub number : ℕ
  pub state_root : ℕ
  pub extrinsics_root : ℕ
  pub logs : List Item

abbrev pub generated_module_log_prefix : ℕ
generated_module_log_prefix = 2

abbrev pub generated_sharding_prefix : ℕ
generated_sharding_prefix = 0

abbrev pub generated_scale_out_phase_prefix : ℕ
generated_scale_out_phase_prefix = 1

-- `data.len() >= 4 && data[0] == GENERATED_MODULE_LOG_PREFIX && data[1] == kind`
unfoldable pub is_module_log : ℕ → List ℕ → Bool
is_module_log kind data_ =
    leb 4 (length data_)
    && (get_or data_ 0 0 == generated_module_log_prefix)
    && (get_or data_ 1 0 == kind)

module _ {Item : Type 0} (d : Digests Item) where
  unfoldable pub pow_seal : PowSeal → Item
  pow_seal seal = d.consensus d.yee_pow_engine_id (d.encode_seal seal)

  unfoldable pub as_pow_seal : Item → Option PowSeal
  as_pow_seal item = do
    entry ← d.as_consensus item
    if entry.0 == d.yee_pow_engine_id then d.decode_seal entry.1 else none

  unfoldable pub sharding_info : ℕ → ℕ → Item
  sharding_info num cnt = d.other (
      generated_module_log_prefix
      ∷ generated_sharding_prefix
      ∷ (d.encode_num num ++ d.encode_num cnt))

  unfoldable pub as_sharding_info : Item → Option (ℕ × ℕ)
  as_sharding_info item = do
    bytes ← d.as_other item
    if is_module_log generated_sharding_prefix bytes
        then (do num ← d.decode_num (drop 2 bytes); cnt ← d.decode_num num.1; some (num.0, cnt.0))
        else none

  unfoldable pub scale_out_phase : ScaleOutPhase → Item
  scale_out_phase phase =
      d.other
        (generated_module_log_prefix ∷ generated_scale_out_phase_prefix ∷ d.encode_phase phase)

  unfoldable pub as_scale_out_phase : Item → Option ScaleOutPhase
  as_scale_out_phase item = do
    bytes ← d.as_other item
    if is_module_log generated_scale_out_phase_prefix bytes
        then d.decode_phase (drop 2 bytes)
        else none

-- `logs.iter().rev().filter_map(f).next()`
unfoldable pub find_last : {A B : Type 0} → (A → Option B) → List A → Option B
find_last f [] = none
find_last f (x ∷ xs) = elim (find_last f xs) [ some y ↦ some y | none ↦ f x ]
