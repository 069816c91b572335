-- ===== src/Pow/Work/Sound.antt =====
-- What an accepted proof of work shows.
use native.Mathlib.Nat.{mod-lt}
use yeeroot.Prelude.{
  ℕ, zero, suc, ◌*◌, ◌/◌, ◌%◌, ◌^◌, ◌<◌, ◌≤◌, ◌≡◌, refl, sym, ap, ◌∙◌, subst, ◌⊎◌, ◌↔◌, inl, inr,
  Bool, true, Option, none, some, List, [], ◌∷◌, ◌++◌, length, arith,
}
use yeeroot.Pow.{
  Digests, Header, PowSeal, ProofMulti, ProofNonce, with_nonce, multi, pow_seal, as_sharding_info,
  find_last,
}
use yeeroot.Sharding.ShardNum.{log2}
use yeeroot.Pow.Compact.{OriginalMerkleProof, ParseError, parse_original, path_of}
use yeeroot.Pow.Compact.Climb.{climb, climb-injective}
use yeeroot.Pow.Compact.RoundTrip.{parsed, parse_original-cases, log2-pow2}
use yeeroot.Pow.Outcome.{ok}
use yeeroot.Pow.Work.{
  Hashing, merkle_proof_item_count, mined_count, check_extra, push_seal, pre_hash, check_nonce,
  check_original, check_counted, check_multi, check_seal, check_work_proof,
}

counts :
    (p : ProofMulti) (cnt count : ℕ)
    → mined_count p cnt ≡ some count
    → ((count ≡ cnt) ⊎ (count ≡ cnt * 2 % 65536)) × (count ≡ 2 ^ (length p.merkle_proof % 16))
unfolding mined_count merkle_proof_item_count
counts p cnt count eq = ground arith

-- With as many siblings as the count has digits, the count is not wrapped around.
unwrapped : (n count : ℕ) → count ≡ 2 ^ (n % 16) → n ≡ log2 count → count ≡ 2 ^ n
unwrapped n count c len =
    let small : n % 16 < 16 = mod-lt n (omega arith) in
    let same : n ≡ n % 16 = len ∙ ap log2 c ∙ (log2-pow2 (n % 16) small).0 in
    c ∙ ap (λ m. 2 ^ m) (sym same)

length-path_of : (n num : ℕ) → length (path_of n num) ≡ n
unfolding path_of
length-path_of zero num = refl
length-path_of (suc n) num = ap suc (length-path_of n (num / 2))

module _ {Item : Type 0} (d : Digests Item) (h : Hashing Item) (header : Header Item)
    (seal : PowSeal) where
  check_original-ok :
      (p : ProofMulti) (r : ParseError ⊎ OriginalMerkleProof ℕ) (out : Item × ℕ)
      → check_original d h header seal p r ≡ ok out
      → (omp : OriginalMerkleProof ℕ) × (r ≡ inr omp)
        × (h.validate omp.proof ≡ true)
        × (check_extra h.blake2 p.extra_data ≡ true)
        × (h.pow_target (h.hash_of p.merkle_root p.nonce p.extra_data) ≤ seal.pow_target)
        × (out ≡ (pow_seal d seal, h.hash (push_seal d header seal)))
  unfolding check_original
  check_original-ok p (inl e) out eq = absurd (ground arith)
  check_original-ok p (inr omp) out eq =
      (omp, refl, ground arith, ground arith, ground arith, ground arith)

  check_counted-ok :
      (p : ProofMulti) (num : ℕ) (c : Option ℕ) (out : Item × ℕ)
      → check_counted d h header seal p num c ≡ ok out
      → (count : ℕ) × (c ≡ some count)
        × (check_original d h header seal p (
              parse_original (record {
                proof = p.merkle_proof;
                item = pre_hash d h header seal;
                root = p.merkle_root;
                num = num;
                count = count;
              }))
            ≡ ok out)
  unfolding check_counted
  check_counted-ok p num none out eq = absurd (ground arith)
  check_counted-ok p num (some count) out eq = (count, refl, eq)

  check_multi-ok :
      (p : ProofMulti) (info : Option (ℕ × ℕ)) (out : Item × ℕ)
      → check_multi d h header seal p info ≡ ok out
      → (num cnt : ℕ) × (info ≡ some (num, cnt))
        × (check_counted d h header seal p num (mined_count p cnt) ≡ ok out)
  unfolding check_multi
  check_multi-ok p none out eq = absurd (ground arith)
  check_multi-ok p (some (num, cnt)) out eq = (num, cnt, refl, eq)

  -- A proof of work with its own nonce is accepted exactly if its extra data has at most 32 bytes
  -- and the hash of the sealed header meets the seal's target; the result is the seal's digest item
  -- with this hash.
  pub check_work_proof_iff_nonce :
      (p : ProofNonce) (out : Item × ℕ)
      → seal.work_proof ≡ with_nonce p
      → (check_work_proof d h header seal ≡ ok out) ↔ (
          (length p.extra_data ≤ 32)
          × (h.pow_target (h.hash (push_seal d header seal)) ≤ seal.pow_target)
          × (out ≡ (pow_seal d seal, h.hash (push_seal d header seal))))
  unfolding check_work_proof check_seal check_nonce
  check_work_proof_iff_nonce p out kind = rw kind (ground arith)

  checked :
      (p : ProofMulti) (out : Item × ℕ)
      → seal.work_proof ≡ multi p
      → check_work_proof d h header seal ≡ ok out
      → check_multi d h header seal p (find_last (as_sharding_info d) header.logs) ≡ ok out
  unfolding check_work_proof check_seal
  checked p out kind eq = subst (λ w. check_seal d h header seal w ≡ ok out) kind eq

  module _ (node : ℕ → ℕ → ℕ)
      (validate_law : (x r : ℕ) (ss : List ℕ) (path : List Bool)
        → length ss ≡ length path
        → h.validate (record { lemma = x ∷ (ss ++ (r ∷ [])); path = path }) ≡ true
        → climb node x ss path ≡ r) where
    climbed :
        (ss : List ℕ) (r x num count : ℕ) (omp : OriginalMerkleProof ℕ)
        → omp ≡ parsed (record { proof = ss; item = x; root = r; num = num; count = count })
        → length ss ≡ log2 count
        → h.validate omp.proof ≡ true
        → climb node x ss (path_of (length ss) num) ≡ r
    climbed ss r x num count omp shape len valid =
        subst (λ n. climb node x ss (path_of n num) ≡ r) (sym len)
          (validate_law x r ss (path_of (log2 count) num)
            (len ∙ sym (length-path_of (log2 count) num))
            (subst (λ o. h.validate o.proof ≡ true) shape valid))

    -- An accepted proof of work for many shards: the header's shard number is below the number of
    -- shards, or below twice that number, this number is a power of two with one sibling for each
    -- of its digits, the header hashed with an empty proof leads by the siblings, on the sides that
    -- the shard number gives, to the Merkle root, and the hash of root, nonce and extra data meets the seal's target.
    -- The Merkle library is assumed to accept only a proof that leads to its root.
    pub check_work_proof-climbs :
        (p : ProofMulti) (out : Item × ℕ)
        → seal.work_proof ≡ multi p
        → check_work_proof d h header seal ≡ ok out
        → (num cnt count : ℕ) × (find_last (as_sharding_info d) header.logs ≡ some (num, cnt))
          × ((count ≡ cnt) ⊎ (count ≡ cnt * 2 % 65536))
          × (num < count)
          × (count ≡ 2 ^ length p.merkle_proof)
          × (climb node
                (pre_hash d h header seal)
                p.merkle_proof
                (path_of (length p.merkle_proof) num)
              ≡ p.merkle_root)
          × (h.pow_target (h.hash_of p.merkle_root p.nonce p.extra_data) ≤ seal.pow_target)
          × (out ≡ (pow_seal d seal, h.hash (push_seal d header seal)))
    check_work_proof-climbs p out kind accepted =
        let (num, cnt, info, counted) =
          check_multi-ok p (find_last (as_sharding_info d) header.logs) out
            (checked p out kind accepted) in
        let (count, c, original) = check_counted-ok p num (mined_count p cnt) out counted in
        let (omp, r, valid, extra, met, e) = check_original-ok p _ out original in
        let (small, pow, len, shape) = parse_original-cases _ omp r in
        (
          num,
          cnt,
          count,
          info,
          (counts p cnt count c).0,
          small,
          unwrapped (length p.merkle_proof) count (counts p cnt count c).1 len,
          climbed p.merkle_proof p.merkle_root (pre_hash d h header seal) num count omp shape len
              valid,
          met,
          e,
        )

-- One solution for many shards seals one header of a shard: two accepted seals with multi proofs of one Merkle
-- root and equally many siblings, in headers of one shard number, are for headers that agree
-- when hashed with an empty proof, if no two pairs of nodes have one hash. The Merkle library is assumed to accept
-- only a proof that leads to its root.
pub check_work_proof-injective :
    {Item : Type 0} (d : Digests Item) (h : Hashing Item) (node : ℕ → ℕ → ℕ)
    (validate_law : (x r : ℕ) (ss : List ℕ) (path : List Bool)
      → length ss ≡ length path
      → h.validate (record { lemma = x ∷ (ss ++ (r ∷ [])); path = path }) ≡ true
      → climb node x ss path ≡ r)
    (injective : (a b c e : ℕ) → node a b ≡ node c e → (a ≡ c) × (b ≡ e))
    (header other : Header Item) (seal second : PowSeal) (p q : ProofMulti) (out last : Item × ℕ)
    (info more : ℕ × ℕ)
    → seal.work_proof ≡ multi p
    → second.work_proof ≡ multi q
    → p.merkle_root ≡ q.merkle_root
    → length p.merkle_proof ≡ length q.merkle_proof
    → find_last (as_sharding_info d) header.logs ≡ some info
    → find_last (as_sharding_info d) other.logs ≡ some more
    → info.0 ≡ more.0
    → check_work_proof d h header seal ≡ ok out
    → check_work_proof d h other second ≡ ok last
    → pre_hash d h header seal ≡ pre_hash d h other second
check_work_proof-injective d h node validate_law injective header other seal second p q out last
      info more kind kind2 root len shard shard2 same accepted accepted2 =
    let (num, cnt, count, i, c, lt, pow, up, met, e) =
      check_work_proof-climbs d h header seal node validate_law p out kind accepted in
    let (num2, cnt2, count2, i2, c2, lt2, fits2, up2, met2, e2) =
      check_work_proof-climbs d h other second node validate_law q last kind2 accepted2 in
    let nums : num ≡ num2 = ground (arith, i, i2, shard, shard2, same) in
    climb-injective node injective (pre_hash d h header seal) (pre_hash d h other second)
      p.merkle_proof q.merkle_proof (path_of (length p.merkle_proof) num) len
      (up
        ∙ root
        ∙ sym up2
        ∙ ap (λ path. climb node (pre_hash d h other second) q.merkle_proof path)
            (ap (λ n. path_of n num2) (sym len) ∙ ap (path_of (length p.merkle_proof)) (sym nums)))
