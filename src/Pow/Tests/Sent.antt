-- ===== src/Pow/Tests/Sent.antt =====
-- The theorems on the verifier and on relayed extrinsics: shard 0 of two sends to shard 1.
use yeeroot.Prelude.{
  ℕ, ◌%◌, ◌≡◌, refl, Bool, true, Option, none, some, List, [], ◌∷◌, ◌++◌, length, arith,
  if◌then◌else◌,
}
use yeeroot.Storage.{ℕ_key, lookup, write}
use yeeroot.Relay.{RelayParams, RelayTypes}
use yeeroot.Relay.RoundTrip.{encode_origin, decode_origin-encode_origin}
use yeeroot.Relay.Tests.{plain, plain_writers, plain-CodecLaws, payment}
use yeeroot.Sharding.ShardNum.{
  shard_num_for_bytes, get_digits, log2, log2_loop, pow2, mask, low_word,
}
use yeeroot.Sharding.ScaleOut.{ShardInfo, Sharding, next_phase, ready, target_shard_num}
use yeeroot.Sharding.ScaleOut.Phases.{run_blocks}
use yeeroot.Merkle.{
  MerkleLib, MerkleLaws, MultiLayerProof, mem, gen_proof, gen_with, layer2_root, contains,
  new_with_poof, new_with_layer2,
}
use yeeroot.Pow.{
  PowSeal, Header, as_pow_seal, as_sharding_info, as_scale_out_phase, find_last, is_module_log,
  pow_seal,
}
use yeeroot.Pow.Outcome.{ok, err, panic}
use yeeroot.Pow.Target.{calc_pow_target, calc_at, header_seal}
use yeeroot.Pow.Work.{check_work_proof, check_seal, check_nonce, push_seal}
use yeeroot.Pow.Outgoing.{
  balances_transfer, UncheckedExtrinsic, Extrinsics, collect, note_sent, push_hash, sent_hashes,
  dest_shard, sent_by, dest_of, layered, layer1_merkles, layer2_leaves, layer1_tree, layer2_leaf,
  gen_extrinsic_proof,
}
use yeeroot.Pow.Outgoing.Delivered.{sent_to, gen_extrinsic_proof-delivers}
use yeeroot.Pow.Verifier.{
  ShardExtra, is_own_num, phase_ok, original_loop, get_original_shard_num, check_scale,
}
use yeeroot.Pow.Verifier.Original.{get_original_shard_num-shard_num_for_bytes}
use yeeroot.Pow.Verifier.ShardInfo.{
  numbers_of, Tracks, phase_before, phase_ok-next_phase, phase_ok-run_blocks,
}
use yeeroot.Pow.Verifier.Checks.{
  pop_log, Foreign, check_relay_merkle_proof, check_relay, check_body, ImportBlock, PowVerifier,
  info_of, phase_of, numbers, check_pow_target, check_phase, check_own_num, before_scale,
  scale_check, after_scale, verify_header, verify,
}
use yeeroot.Pow.Verifier.Checks.Sound.{verify_sound}
use yeeroot.Pow.Verifier.Checks.Worked.{Worked}
use yeeroot.Pow.Verifier.Relayed.{check_relay-gen_extrinsic_proof, check_relay_merkle_proof-panics}
use yeeroot.Pow.Tests.{pair, validate_back, Item, digests, hashing, block, context, client}

-- A tree is its leaves, its root their number.
abbrev pub forest : MerkleLib (List ℕ)
forest = record {
  from_leaves = λ l. l;
  root = length;
  leafs = length;
  contains = λ t h. mem h t;
  gen_proof = λ t i. length t ∷ [];
  proof_root = λ bytes. elim bytes [ [] ↦ none | r ∷ rest ↦ some r ];
  proof_validates = λ bytes. true;
}

pub forest-MerkleLaws : MerkleLaws forest
forest-MerkleLaws = record {
  contains_leaves = λ x l h. refl;
  leafs_leaves = λ l n h. refl;
  root_of_proof = λ t i h. refl;
  proof_valid = λ t i h. refl;
}

-- An extrinsic's bytes are its destination; shard numbers are remainders.
abbrev destination : List ℕ → Option UncheckedExtrinsic
destination [] = none
destination (n ∷ bytes) = some (record { is_signed = true; function = balances_transfer n 100 })

abbrev extrinsics : Extrinsics
extrinsics = record {
  decode = destination;
  hash = length;
  shard_num_for = λ n count. some (n % count);
}

-- One transfer to shard 1 and one that stays.
abbrev body : List (List ℕ)
body = (7 ∷ 1 ∷ 1 ∷ []) ∷ (4 ∷ []) ∷ []

abbrev results : List Bool
results = true ∷ true ∷ []

abbrev made : MultiLayerProof (List ℕ)
made = record {
  layer2_merkle = some (0 ∷ 1 ∷ []);
  layer2_proof = none;
  layer1_merkles = (0, none) ∷ (1, some (3 ∷ [])) ∷ [];
}

abbrev cut : MultiLayerProof (List ℕ)
cut = record {
  layer2_merkle = none;
  layer2_proof = some (2 ∷ []);
  layer1_merkles = (1, some (3 ∷ [])) ∷ [];
}

body_made : gen_extrinsic_proof forest extrinsics (some (0, 2)) body results ≡ ok (2, made)
unfolding gen_extrinsic_proof collect note_sent push_hash sent_hashes dest_shard sent_by dest_of
    layered layer1_merkles layer2_leaves layer1_tree layer2_leaf lookup write new_with_layer2
body_made = refl

gen_extrinsic_proof-delivers_example :
    (p : MultiLayerProof (List ℕ)) × (proof : List ℕ) × (gen_proof forest made 1 ≡ some p)
    × (p.layer2_proof ≡ some proof)
    × (layer2_root forest p ≡ some 2)
    × (forest.proof_validates proof ≡ true)
    × (contains forest p 1 3 ≡ mem 3 (sent_to extrinsics 2 1 body results))
gen_extrinsic_proof-delivers_example =
    gen_extrinsic_proof-delivers forest forest-MerkleLaws extrinsics 0 2 1 1 3 2 body results made
      body_made refl (omega arith) (λ e. absurd (omega (arith, e)))

cut_lem : gen_proof forest made 1 ≡ some cut
unfolding gen_proof gen_with new_with_poof
cut_lem = refl

-- What a node has stored: the whole proof under no bytes, the one cut for shard 1 under any.
abbrev stored : List ℕ → Option (MultiLayerProof (List ℕ))
stored [] = some made
stored (b ∷ bytes) = some cut

abbrev foreign : Foreign (List ℕ)
foreign = record {
  lib = forest;
  from_bytes = stored;
  proof_of = λ fs hash. some (5 ∷ []);
  codec = plain;
  shard_num_for = λ n count. some 0;
}

abbrev pub node : ShardExtra
node = record { coinbase = 3; shard_num = 1; shard_count = 2; scale_out = none }

abbrev relay : RelayParams
relay = record {
  number = 9;
  hash = 3;
  block_hash = 1;
  parent_hash = 2;
  relay_type = RelayTypes.balance;
  origin = encode_origin plain_writers 255 4 0 payment;
}

check_relay-gen_extrinsic_proof_example :
    (check_relay_merkle_proof foreign (some (5 ∷ [])) 2 ≡ ok tt)
    × (check_relay foreign node relay
        ≡ (if mem 3 (sent_to extrinsics 2 1 body results) then ok tt else err))
check_relay-gen_extrinsic_proof_example =
    check_relay-gen_extrinsic_proof foreign forest-MerkleLaws extrinsics 0 2 1 1 2 body results made
      cut (5 ∷ []) node relay payment body_made refl (omega arith) (λ e. absurd (omega (arith, e)))
      cut_lem refl refl refl
      (decode_origin-encode_origin plain plain_writers 255 4 0 payment plain-CodecLaws refl refl
        refl refl)
      refl

check_relay_merkle_proof-panics_example : check_relay_merkle_proof foreign (some []) 2 ≡ panic
check_relay_merkle_proof-panics_example =
    check_relay_merkle_proof-panics foreign extrinsics 0 2 2 body results made [] body_made refl

abbrev verifier : PowVerifier Item (List ℕ)
verifier = record {
  digests = digests;
  hashing = hashing;
  foreign = foreign;
  client = client;
  context = context;
  shard_extra = node;
}

abbrev sealed : Header Item
sealed = block 22 ((8, 950 ∷ []) ∷ [])

abbrev imported : ImportBlock Item
imported = record {
  header = block 22 [];
  proof = none;
  post_digests = (8, 950 ∷ []) ∷ [];
  body = none;
}

accepted : (verify verifier sealed none none).0 ≡ ok imported
unfolding verify verify_header before_scale scale_check after_scale check_pow_target check_phase
    check_own_num check_relay_merkle_proof check_body pop_log info_of phase_of calc_pow_target
    calc_at header_seal check_work_proof check_seal check_nonce push_seal pow_seal as_pow_seal
    as_sharding_info as_scale_out_phase is_module_log find_last phase_ok original_loop
    get_original_shard_num check_scale
accepted = refl

verify_sound_example :
    (item : Item) × (seal : PowSeal) × (target num cnt : ℕ) × (before : Header Item) × (sealed
      ≡ record imported.header { logs = imported.header.logs ++ imported.post_digests })
    × ((imported.body ≡ none) × (imported.proof ≡ none))
    × (imported.post_digests ≡ item ∷ [])
    × (as_pow_seal digests item ≡ some seal)
    × (calc_pow_target digests context client imported.header seal.timestamp ≡ ok target)
    × Worked verifier pair validate_back imported.header seal target
    × (info_of verifier imported.header ≡ some (num, cnt))
    × (client.header_at 1 ≡ some before)
    × (phase_ok
          (numbers verifier sealed (num, cnt))
          (phase_of verifier before)
          (phase_of verifier imported.header)
        ≡ true)
    × (get_original_shard_num 1 2 cnt ≡ ok num)
    × ((verify verifier sealed none none).1 ≡ none)
verify_sound_example = verify_sound verifier pair validate_back sealed none none imported accepted

abbrev splitting : ShardInfo
splitting = record { num = 1; count = 4; scale_out = some (record { shard_num = 5 }) }

abbrev quiet : Sharding
quiet = record {
  genesis_sharding_count = 4;
  scale_out_observe_blocks = 10;
  current_shard_info = none;
  current_scale_out_phase = none;
  block_number = 99;
  logs = [];
}

own_split : is_own_num 1 4 5 ≡ true
unfolding is_own_num
own_split = refl

phase_ok-run_blocks_example :
    phase_ok
      (record { number = 130; observe_blocks = 10; num = 1; count = 4 })
      (phase_before splitting 100 30 quiet)
      (run_blocks splitting 100 30 quiet).current_scale_out_phase
    ≡ true
phase_ok-run_blocks_example =
    phase_ok-run_blocks splitting 100 (record { shard_num = 5 }) quiet 30 refl refl own_split
      (omega arith) (omega arith) (omega arith) (omega arith)

-- The last block before the commit.
fits : Tracks splitting quiet (some (ready 99 5))
unfolding Tracks is_own_num target_shard_num
fits = (omega arith, refl, refl)

phase_ok-next_phase_example :
    phase_ok
      (numbers_of splitting quiet)
      (some (ready 99 5))
      (next_phase splitting quiet (some (ready 99 5)))
    ≡ true
phase_ok-next_phase_example = phase_ok-next_phase splitting quiet (some (ready 99 5)) fits

shard_five : shard_num_for_bytes (0 ∷ 13 ∷ []) 8 ≡ some 5
unfolding shard_num_for_bytes get_digits log2 log2_loop pow2 mask low_word
shard_five = refl

get_original_shard_num-shard_num_for_bytes_example :
    (m : ℕ) × (get_original_shard_num 5 8 4 ≡ ok m) × (shard_num_for_bytes (0 ∷ 13 ∷ []) 4 ≡ some m)
get_original_shard_num-shard_num_for_bytes_example =
    get_original_shard_num-shard_num_for_bytes (0 ∷ 13 ∷ []) 1 2 5 (omega arith) shard_five
