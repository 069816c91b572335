-- ===== src/Pow/Verifier/Checks.antt =====
-- core/consensus/pow/src/verifier.rs: the verifier of a block, check by check. What the node's
-- foreign chains know is a parameter, as are the Merkle proofs of a block's relayed extrinsics.
pub mod Worked
pub mod Sound
use yeeroot.Prelude.{
  ℕ, ◌+◌, ◌%◌, ◌^◌, ◌&&◌, Bool, true, false, Option, none, some, List, [], ◌∷◌, ltb, ◌==◌, not,
  if◌then◌else◌, is_some,
}
use yeeroot.Relay.{Codec, RelayParams, RelayTypes, OriginExtrinsic, decode_relay, decode_origin}
use yeeroot.Sharding.ScaleOut.{ScaleOutPhase}
use yeeroot.Pow.{
  Digests, Header, PowSeal, as_pow_seal, as_sharding_info, as_scale_out_phase, find_last,
}
use yeeroot.Pow.Outcome.{Outcome, ok, err, panic, ◌>>=◌, ◌>>◌, expect, ok_or, require}
use yeeroot.Pow.Target.{Context, Client, calc_pow_target}
use yeeroot.Pow.Work.{Hashing, check_work_proof}
use yeeroot.Pow.Verifier.{
  ShardExtra, Numbers, phase_ok, Trigger, check_scale, get_original_shard_num,
}
use yeeroot.Merkle.{MultiLayerProof, MerkleLib, layer2_root, contains}

-- `digest_mut().pop()`
unfoldable pub pop_log : {Item : Type 0} → List Item → Option (List Item × Item)
pop_log [] = none
pop_log (x ∷ xs) = elim (pop_log xs) [
  | some (rest, last) ↦ some (x ∷ rest, last)
  | none ↦ some ([], x)
]

-- What the node knows of the other shards: the stored proof of a foreign block, and how the bytes of
-- a proof are read.
pub record Foreign (Tree : Type 0) : Type 0 where
  pub lib : MerkleLib Tree
  pub from_bytes : List ℕ → Option (MultiLayerProof Tree)
  pub proof_of : ℕ → ℕ → Option (List ℕ)
  pub codec : Codec
  pub shard_num_for : ℕ → ℕ → Option ℕ

module _ {Tree : Type 0} (g : Foreign Tree) where
  unfoldable pub has_root : MultiLayerProof Tree → ℕ → Bool
  has_root mlp p_h = elim (layer2_root g.lib mlp) [ some root ↦ root == p_h | none ↦ false ]

  unfoldable pub check_layers : MultiLayerProof Tree → ℕ → Outcome (Unit {0})
  check_layers mlp p_h = do
    require (has_root mlp p_h)
    proof ← expect mlp.layer2_proof
    require (g.lib.proof_validates proof)

  unfoldable pub check_relay_merkle_proof : Option (List ℕ) → ℕ → Outcome (Unit {0})
  check_relay_merkle_proof none p_h = ok tt
  check_relay_merkle_proof (some proof) p_h = do
    mlp ← ok_or (g.from_bytes proof)
    check_layers mlp p_h

  -- Whether the stored proof of the foreign block contains the relayed extrinsic.
  unfoldable pub in_proof : ShardExtra → ℕ → RelayParams → Bool
  in_proof extra fs rt = elim (g.proof_of fs rt.block_hash) [
    | some bytes ↦ elim (g.from_bytes bytes) [
      | some proof ↦ contains g.lib proof extra.shard_num rt.hash
      | none ↦ false
    ]
    | none ↦ false
  ]

  unfoldable pub check_relay : ShardExtra → RelayParams → Outcome (Unit {0})
  check_relay extra rt = do
    origin ← ok_or (decode_origin g.codec rt.relay_type rt.origin)
    fs ← expect (g.shard_num_for origin.sender extra.shard_count)
    require (in_proof extra fs rt)

  unfoldable pub check_extrinsic : ShardExtra → List ℕ → Outcome (Unit {0})
  check_extrinsic extra tx = elim (decode_relay g.codec tx) [
    | some rt ↦ check_relay extra rt
    | none ↦ ok tt
  ]

  unfoldable pub check_each : ShardExtra → List (List ℕ) → Outcome (Unit {0})
  check_each extra [] = ok tt
  check_each extra (tx ∷ exs) = do check_extrinsic extra tx; check_each extra exs

  unfoldable pub check_relay_transfer :
      ShardExtra → Option (ℕ × ℕ) → List (List ℕ) → Outcome (Unit {0})
  check_relay_transfer extra shard_info exs = do ok_or shard_info; check_each extra exs

  unfoldable pub check_body :
      ShardExtra → Option (ℕ × ℕ) → Option (List (List ℕ)) → Outcome (Unit {0})
  check_body extra shard_info none = ok tt
  check_body extra shard_info (some exs) = check_relay_transfer extra shard_info exs

-- The block as it is handed to the import.
pub record ImportBlock (Item : Type 0) : Type 0 where
  pub header : Header Item
  pub proof : Option (List ℕ)
  pub post_digests : List Item
  pub body : Option (List (List ℕ))

pub record PowVerifier (Item Tree : Type 0) : Type 0 where
  pub digests : Digests Item
  pub hashing : Hashing Item
  pub foreign : Foreign Tree
  pub client : Client Item
  pub context : Context
  pub shard_extra : ShardExtra

module _ {Item Tree : Type 0} (v : PowVerifier Item Tree) where
  unfoldable pub info_of : Header Item → Option (ℕ × ℕ)
  info_of header = find_last (as_sharding_info v.digests) header.logs

  unfoldable pub phase_of : Header Item → Option ScaleOutPhase
  phase_of header = find_last (as_scale_out_phase v.digests) header.logs

  unfoldable pub check_pow_target : Header Item → PowSeal → Outcome (Unit {0})
  check_pow_target header seal = do
    pow_target ← calc_pow_target v.digests v.context v.client header seal.timestamp
    require (seal.pow_target == pow_target)

  abbrev pub numbers : Header Item → ℕ × ℕ → Numbers
  numbers header info = record {
    number = header.number;
    observe_blocks = v.context.genesis_scale_out_observe_blocks;
    num = info.0;
    count = info.1;
  }

  -- `check_shard_info` up to `check_scale`, and behind it.
  unfoldable pub check_phase : Header Item → Outcome (ℕ × ℕ)
  check_phase header = do
    info ← expect (info_of header)
    parent ← expect (v.client.header_at header.parent_hash)
    require (phase_ok (numbers header info) (phase_of parent) (phase_of header))
    ok info

  unfoldable pub check_own_num : ℕ × ℕ → Outcome (Unit {0})
  check_own_num info = do
    original ← get_original_shard_num v.shard_extra.shard_num v.shard_extra.shard_count info.1
    require (info.0 == original)

  -- The header without its seal, the seal's item, the seal and the header's shard information.
  abbrev pub Unsealed : Type 0
  Unsealed = (Header Item × Item) × (PowSeal × (ℕ × ℕ))

  unfoldable pub before_scale : Header Item → Outcome Unsealed
  before_scale sealed = do
    popped ← ok_or (pop_log sealed.logs)
    seal ← ok_or (as_pow_seal v.digests popped.1)
    let header : Header Item = record sealed { logs = popped.0 }
    check_pow_target header seal
    info ← check_phase header
    ok ((header, popped.1), (seal, info))

  unfoldable pub scale_check : Header Item → Outcome (Unit {0}) × Option Trigger
  scale_check header = check_scale v.foreign.shard_num_for v.shard_extra (phase_of header)

  unfoldable pub after_scale :
      Option (List ℕ) → Option (List (List ℕ)) → Unsealed → Outcome (ImportBlock Item)
  after_scale proof body u = do
    check_own_num u.1.1
    check_work_proof v.digests v.hashing u.0.0 u.1.0
    check_relay_merkle_proof v.foreign proof u.1.0.relay_proof
    check_body v.foreign v.shard_extra (info_of u.0.0) body
    ok (record { header = u.0.0; proof = proof; post_digests = u.0.1 ∷ []; body = body })

  unfoldable pub verify_header :
      Option (List ℕ) → Option (List (List ℕ)) → Unsealed → Outcome (ImportBlock Item)
  verify_header proof body u = do (scale_check u.0.0).0; after_scale proof body u

  -- What the service is asked to do, if the checks reach `check_scale`.
  unfoldable pub asked : Outcome Unsealed → Option Trigger
  asked (ok u) = (scale_check u.0.0).1
  asked err = none
  asked panic = none

  unfoldable pub verify :
      Header Item
      → Option (List ℕ)
      → Option (List (List ℕ))
      → Outcome (ImportBlock Item) × Option Trigger
  verify sealed proof body =
      (before_scale sealed >>= verify_header proof body, asked (before_scale sealed))
