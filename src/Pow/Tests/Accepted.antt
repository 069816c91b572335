-- ===== src/Pow/Tests/Accepted.antt =====
-- The theorems on the proof of work, the target and the verifier at the concrete node.
use yeeroot.Prelude.{
  ℕ, ◌+◌, ◌*◌, ◌%◌, ◌^◌, ◌≤◌, ◌<◌, ◌≡◌, refl, true, false, some, List, [], ◌∷◌, ◌++◌, arith, ◌⊎◌,
  inr,
}
use yeeroot.Sharding.ShardNum.{log2, log2_loop, pow2}
use yeeroot.Pow.{
  ProofMulti, multi, PowSeal, pow_seal, as_pow_seal, as_sharding_info, find_last, is_module_log,
}
use yeeroot.Pow.Outcome.{ok}
use yeeroot.Pow.Compact.{
  Proof, CompactMerkleProof, OriginalMerkleProof, path_of, parse_original, to_compact,
}
use yeeroot.Pow.Compact.Climb.{climb}
use yeeroot.Pow.Compact.RoundTrip.{parse_original-to_compact}
use yeeroot.Pow.Target.{header_seal, expected_gap, calc_pow_target}
use yeeroot.Pow.Target.Adjustment.{calc_pow_target-adjusts}
use yeeroot.Pow.Work.{
  push_seal, pre_hash, check_work_proof, check_seal, check_multi, check_counted, check_original,
  check_extra, same_bytes, mined_count, merkle_proof_item_count,
}
use yeeroot.Pow.Work.Sound.{check_work_proof-climbs, check_work_proof-injective}
use yeeroot.Pow.Tests.{
  pair, pair_injective, Item, sealed_at, own_nonce, digests, hashing, validate_back, block, parent,
  context, client,
}

abbrev solved : ProofMulti
solved = record { extra_data = []; merkle_root = pair 9 21; nonce = 40; merkle_proof = 9 ∷ [] }

abbrev shard_one : PowSeal
shard_one = sealed_at 950 (multi solved)

abbrev sealed_out : Item × ℕ
sealed_out = ((8, 950 ∷ []), 21)

solved_accepted : check_work_proof digests hashing (block 21 []) shard_one ≡ ok sealed_out
unfolding check_work_proof check_seal check_multi check_counted check_original check_extra
    same_bytes mined_count merkle_proof_item_count parse_original path_of log2 log2_loop pow2
    pre_hash push_seal pow_seal find_last as_sharding_info is_module_log
solved_accepted = refl

check_work_proof-climbs_example :
    (num cnt count : ℕ) × (find_last (as_sharding_info digests) (block 21 []).logs
      ≡ some (num, cnt))
    × ((count ≡ cnt) ⊎ (count ≡ cnt * 2 % 65536))
    × (num < count)
    × (count ≡ 2 ^ 1)
    × (climb pair (pre_hash digests hashing (block 21 []) shard_one) (9 ∷ []) (path_of 1 num)
        ≡ pair 9 21)
    × (40 ≤ 5000000)
    × (sealed_out ≡ (pow_seal digests shard_one, 21))
unfolding push_seal
check_work_proof-climbs_example =
    check_work_proof-climbs digests hashing (block 21 []) shard_one pair validate_back solved
      sealed_out refl solved_accepted

own_shard : find_last (as_sharding_info digests) (block 21 []).logs ≡ some (1, 2)
unfolding find_last as_sharding_info is_module_log
own_shard = refl

check_work_proof-injective_example :
    pre_hash digests hashing (block 21 []) shard_one
    ≡ pre_hash digests hashing (block 21 []) shard_one
check_work_proof-injective_example =
    check_work_proof-injective digests hashing pair validate_back pair_injective (block 21 [])
      (block 21 []) shard_one shard_one solved solved sealed_out sealed_out (1, 2) (1, 2) refl refl
      refl refl own_shard own_shard refl solved_accepted solved_accepted

abbrev first_of : Proof ℕ → ℕ
first_of p = elim p.lemma [ x ∷ l ↦ x | [] ↦ 0 ]

abbrev last_in : ℕ → List ℕ → ℕ
last_in d [] = d
last_in d (x ∷ l) = last_in x l

abbrev last_of : Proof ℕ → ℕ
last_of p = last_in 0 p.lemma

last_in-append : (d r : ℕ) (l : List ℕ) → last_in d (l ++ (r ∷ [])) ≡ r
last_in-append d r [] = refl
last_in-append d r (x ∷ l) = last_in-append x r l

abbrev compact : CompactMerkleProof ℕ
compact = record { proof = 9 ∷ 4 ∷ []; item = 21; root = 6; num = 1; count = 4 }

abbrev original : OriginalMerkleProof ℕ
original = record {
  proof = record { lemma = 21 ∷ 9 ∷ 4 ∷ 6 ∷ []; path = false ∷ true ∷ [] };
  num = 1;
  count = 4;
}

compact_parses : parse_original compact ≡ inr original
unfolding parse_original path_of log2 log2_loop pow2
compact_parses = refl

parse_original-to_compact_example :
    parse_original (
      to_compact first_of last_of (record {
        proof = record { lemma = 21 ∷ 9 ∷ 4 ∷ 6 ∷ []; path = path_of 2 1 };
        num = 1;
        count = 4;
      }))
    ≡ inr (record {
      proof = record { lemma = 21 ∷ 9 ∷ 4 ∷ 6 ∷ []; path = path_of 2 1 };
      num = 1;
      count = 4;
    })
parse_original-to_compact_example =
    parse_original-to_compact first_of last_of (λ x l p. refl) (λ r l p. last_in-append 0 r l) 21 6
      (9 ∷ 4 ∷ []) 2 1 (omega arith) (omega arith) refl

parent_seal : header_seal digests parent ≡ some (sealed_at 900 own_nonce)
unfolding header_seal find_last as_pow_seal
parent_seal = refl

ancestor_seal : header_seal digests (block 11 ((8, 100 ∷ []) ∷ [])) ≡ some (sealed_at 100 own_nonce)
unfolding header_seal find_last as_pow_seal
ancestor_seal = refl

gap_of : expected_gap context ≡ 20000
unfolding expected_gap
gap_of = refl

calc_pow_target-adjusts_example :
    (t : ℕ) × (calc_pow_target digests context client (block 21 []) 950 ≡ ok t)
    × (t * expected_gap context ≤ 5000000 * 850)
    × (5000000 * 850 ≤ t * expected_gap context + expected_gap context * 850)
calc_pow_target-adjusts_example =
    calc_pow_target-adjusts digests context client (block 21 []) parent refl
      (block 11 ((8, 100 ∷ []) ∷ [])) (sealed_at 900 own_nonce) (sealed_at 100 own_nonce) 950 1 refl
      parent_seal ancestor_seal refl (omega arith) (omega arith) (omega (arith, gap_of))
      (omega arith) (rw gap_of (omega arith))
