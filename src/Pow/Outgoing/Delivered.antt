-- ===== src/Pow/Outgoing/Delivered.antt =====
-- The transfers that a block sends to another shard are the ones that the proof sent there contains.
use mathlib.Core.List.{append-nil, append_assoc}
use yeeroot.Prelude.{
  ℕ, zero, suc, ◌+◌, ◌^◌, ◌<◌, ◌≡◌, ◌≢◌, refl, sym, ap, ◌∙◌, subst, Bool, true, false, Option, none,
  some, List, [], ◌∷◌, ◌++◌, ◌==◌, ◌&&◌, if◌then◌else◌, or_default, length, get_elem?, arith,
  Bool-cases, length-append, ◌⊎◌, inl, inr,
}
use yeeroot.Storage.{ℕ_key, lookup, lookup-write}
use yeeroot.Pow.Outcome.{ok, bind-ok}
use yeeroot.Merkle.{
  MerkleLib, MerkleLaws, mem, MultiLayerProof, new_with_layer2, new_with_poof, gen_with, gen_proof,
  layer2_root, contains_in, contains,
}
use yeeroot.Pow.Outgoing.{
  Extrinsics, dest_shard, ExtrinsicShard, sent_hashes, push_hash, note_sent, tail, collect,
  layer1_tree, layer1_merkles, layer2_leaves, layered, gen_extrinsic_proof,
}

-- Of the block's extrinsics the hashes of those that are sent to shard `j` and succeeded, in order.
abbrev sent_one : ℕ → ℕ → Option ℕ → List Bool → List ℕ
sent_one j hash none results = []
sent_one j hash (some num) [] = []
sent_one j hash (some num) (result ∷ rest) = if (num == j) && result then hash ∷ [] else []

unfoldable pub sent_to : Extrinsics → ℕ → ℕ → List (List ℕ) → List Bool → List ℕ
sent_to x shard_count j [] results = []
sent_to x shard_count j (bytes ∷ body) results =
    sent_one j (x.hash bytes) (dest_shard x shard_count bytes) results
    ++ sent_to x shard_count j body (tail results)

push_hash-hashes :
    (num hash j : ℕ) (m : ExtrinsicShard)
    → sent_hashes j (push_hash num hash m) ≡ sent_hashes j m ++ (if num == j then hash ∷ [] else [])
unfolding push_hash sent_hashes
push_hash-hashes num hash j m = ground (
  arith,
  lookup-write num j (some (or_default [] (lookup num m) ++ (hash ∷ []))) m,
  append-nil (or_default [] (lookup j m)),
)

note_sent-hashes :
    (shard_num hash j : ℕ) (dest : Option ℕ) (results : List Bool) (m m2 : ExtrinsicShard)
    → j ≢ shard_num
    → note_sent shard_num hash dest results m ≡ ok m2
    → sent_hashes j m2 ≡ sent_hashes j m ++ sent_one j hash dest results
unfolding note_sent
note_sent-hashes shard_num hash j none results m m2 foreign eq =
    ground (arith, eq, append-nil (sent_hashes j m))
note_sent-hashes shard_num hash j (some num) [] m m2 foreign eq =
    ground (arith, eq, append-nil (sent_hashes j m))
note_sent-hashes shard_num hash j (some num) (true ∷ rest) m m2 foreign eq =
    ground (arith, eq, append-nil (sent_hashes j m), push_hash-hashes num hash j m)
note_sent-hashes shard_num hash j (some num) (false ∷ rest) m m2 foreign eq =
    ground (arith, eq, append-nil (sent_hashes j m))

-- After the loop a foreign shard has what it had before, and what the block sends to it.
pub collect-hashes :
    (x : Extrinsics) (shard_num shard_count j : ℕ) (body : List (List ℕ)) (results : List Bool)
    (m out : ExtrinsicShard)
    → j ≢ shard_num
    → collect x shard_num shard_count body results m ≡ ok out
    → sent_hashes j out ≡ sent_hashes j m ++ sent_to x shard_count j body results
unfolding collect sent_to
collect-hashes x shard_num shard_count j [] results m out foreign eq =
    ground (arith, eq, append-nil (sent_hashes j m))
collect-hashes x shard_num shard_count j (bytes ∷ body) results m out foreign eq =
    let dest = dest_shard x shard_count bytes in
    let (m2, noted, rest) =
      bind-ok (note_sent shard_num (x.hash bytes) dest results m)
        (collect x shard_num shard_count body (tail results)) out eq in
    collect-hashes x shard_num shard_count j body (tail results) m2 out foreign rest
    ∙ ap (λ l. l ++ sent_to x shard_count j body (tail results))
        (note_sent-hashes shard_num (x.hash bytes) j dest results m m2 foreign noted)
    ∙ append_assoc (sent_hashes j m) (sent_one j (x.hash bytes) dest results)
        (sent_to x shard_count j body (tail results))

-- A shard has an entry only if something is sent to it.
abbrev Filled : ExtrinsicShard → Type 0
Filled m = (j : ℕ) → lookup j m ≢ some []

append-nonempty : (l : List ℕ) (h : ℕ) → (l ++ (h ∷ [])) ≢ []
append-nonempty l h eq = absurd (omega (arith, length-append l (h ∷ []), ap length eq))

push_hash-Filled : (num hash : ℕ) (m : ExtrinsicShard) → Filled m → Filled (push_hash num hash m)
unfolding push_hash
push_hash-Filled num hash m filled j empty =
    let l = sent_hashes num m in
    ground (
      arith,
      lookup-write num j (some (l ++ (hash ∷ []))) m,
      append-nonempty l hash,
      filled j,
      empty,
    )

note_sent-cases :
    (shard_num hash : ℕ) (dest : Option ℕ) (results : List Bool) (m m2 : ExtrinsicShard)
    → note_sent shard_num hash dest results m ≡ ok m2
    → (m2 ≡ m) ⊎ ((num : ℕ) × (m2 ≡ push_hash num hash m))
unfolding note_sent
note_sent-cases shard_num hash none results m m2 eq = inl (ground arith)
note_sent-cases shard_num hash (some num) [] m m2 eq = inl (ground arith)
note_sent-cases shard_num hash (some num) (true ∷ rest) m m2 eq =
    elim (Bool-cases (num == shard_num)) [
      | inl own ↦ inl (ground arith)
      | inr foreign ↦ inr (num, ground arith)
    ]
note_sent-cases shard_num hash (some num) (false ∷ rest) m m2 eq = inl (ground arith)

note_sent-Filled :
    (shard_num hash : ℕ) (dest : Option ℕ) (results : List Bool) (m m2 : ExtrinsicShard)
    → Filled m
    → note_sent shard_num hash dest results m ≡ ok m2
    → Filled m2
note_sent-Filled shard_num hash dest results m m2 filled eq =
    elim (note_sent-cases shard_num hash dest results m m2 eq) [
      | inl same ↦ subst Filled (sym same) filled
      | inr (num, pushed) ↦ subst Filled (sym pushed) (push_hash-Filled num hash m filled)
    ]

pub collect-Filled :
    (x : Extrinsics) (shard_num shard_count : ℕ) (body : List (List ℕ)) (results : List Bool)
    (m out : ExtrinsicShard)
    → Filled m
    → collect x shard_num shard_count body results m ≡ ok out
    → Filled out
unfolding collect
collect-Filled x shard_num shard_count [] results m out filled eq =
    subst Filled (ground arith) filled
collect-Filled x shard_num shard_count (bytes ∷ body) results m out filled eq =
    let dest = dest_shard x shard_count bytes in
    let (m2, noted, rest) =
      bind-ok (note_sent shard_num (x.hash bytes) dest results m)
        (collect x shard_num shard_count body (tail results)) out eq in
    collect-Filled x shard_num shard_count body (tail results) m2 out
      (note_sent-Filled shard_num (x.hash bytes) dest results m m2 filled noted) rest

module _ {Tree : Type 0} (lib : MerkleLib Tree) (laws : MerkleLaws lib) (m : ExtrinsicShard) where
  length-layer1_merkles : (n i : ℕ) → length (layer1_merkles lib n i m) ≡ n
  unfolding layer1_merkles
  length-layer1_merkles zero i = refl
  length-layer1_merkles (suc n) i = ap suc (length-layer1_merkles n (i + 1))

  get_elem?-layer1_merkles :
      (n i j : ℕ)
      → j < n
      → get_elem? (layer1_merkles lib n i m) j ≡ some (i + j, layer1_tree lib (lookup (i + j) m))
  unfolding layer1_merkles
  get_elem?-layer1_merkles zero i j lt = absurd (omega arith)
  get_elem?-layer1_merkles (suc n) i zero lt =
      ap (λ k. some (k, layer1_tree lib (lookup k m))) (omega arith)
  get_elem?-layer1_merkles (suc n) i (suc j) lt =
      get_elem?-layer1_merkles n (i + 1) j (omega arith)
      ∙ ap (λ k. some (k, layer1_tree lib (lookup k m))) (omega arith)

  length-layer2_leaves :
      (layer1 : List (ℕ × Option Tree)) → length (layer2_leaves lib layer1) ≡ length layer1
  unfolding layer2_leaves
  length-layer2_leaves [] = refl
  length-layer2_leaves (entry ∷ layer1) = ap suc (length-layer2_leaves layer1)

  -- The one tree of a shard contains what is sent to it.
  contains_in-single :
      (j h : ℕ)
      → Filled m
      → contains_in lib ((j, layer1_tree lib (lookup j m)) ∷ []) j h ≡ mem h (sent_hashes j m)
  unfolding contains_in layer1_tree sent_hashes
  contains_in-single j h filled = tree_of (lookup j m) (filled j)
    where
      tree_of :
          (o : Option (List ℕ))
          → o ≢ some []
          → contains_in lib ((j, layer1_tree lib o) ∷ []) j h ≡ mem h (or_default [] o)
      tree_of none some_sent = refl
      tree_of (some []) some_sent = absurd (some_sent refl)
      tree_of (some (x ∷ l)) some_sent = ground (arith, laws.contains_leaves x l h)

  layered-proof :
      (count d j h : ℕ)
      → count ≡ 2 ^ d
      → j < count
      → Filled m
      → (p : MultiLayerProof Tree) × (proof : List ℕ) × (gen_proof lib (layered lib count m).1 j
          ≡ some p)
        × (p.layer2_proof ≡ some proof)
        × (layer2_root lib p ≡ some (layered lib count m).0)
        × (lib.proof_validates proof ≡ true)
        × (contains lib p j h ≡ mem h (sent_hashes j m))
  unfolding gen_proof gen_with layered layer2_root contains new_with_layer2 new_with_poof
  layered-proof count d j h pow lt filled =
      let layer1 = layer1_merkles lib count 0 m in
      let tree = lib.from_leaves (layer2_leaves lib layer1) in
      let many : length (layer2_leaves lib layer1) ≡ count =
        length-layer2_leaves layer1 ∙ length-layer1_merkles count 0 in
      let leafs : lib.leafs tree ≡ count =
        laws.leafs_leaves (layer2_leaves lib layer1) d (many ∙ pow) ∙ many in
      let below : j < lib.leafs tree = omega (arith, leafs) in
      let one = (j, layer1_tree lib (lookup j m)) ∷ [] in
      (
        new_with_poof (lib.gen_proof tree j) one,
        lib.gen_proof tree j,
        ground (arith, leafs, length-layer1_merkles count 0, get_elem?-layer1_merkles count 0 j lt),
        refl,
        laws.root_of_proof tree j below,
        laws.proof_valid tree j below,
        contains_in-single j h filled,
      )

nothing_sent : (j : ℕ) → sent_hashes j [] ≡ []
unfolding sent_hashes lookup
nothing_sent j = refl

nothing-Filled : Filled []
unfolding lookup
nothing-Filled j eq = absurd (ground arith)

module _ {Tree : Type 0} (lib : MerkleLib Tree) (laws : MerkleLaws lib) where
  -- The proof of a block, made for another shard `j` of `2 ^ d` shards: it can be made, it is
  -- rooted in the hash that the block's seal carries, it validates, and it contains exactly the
  -- hashes of the signed transfers of the block to an account of shard `j` that succeeded. The
  -- block's shard information is assumed to be read and the outcomes to suffice, and the Merkle library
  -- to keep the leaves of a tree and to make valid proofs.
  pub gen_extrinsic_proof-delivers :
      (x : Extrinsics) (own count d j h root : ℕ) (body : List (List ℕ)) (results : List Bool)
      (m : MultiLayerProof Tree)
      → gen_extrinsic_proof lib x (some (own, count)) body results ≡ ok (root, m)
      → count ≡ 2 ^ d
      → j < count
      → j ≢ own
      → (p : MultiLayerProof Tree) × (proof : List ℕ) × (gen_proof lib m j ≡ some p)
        × (p.layer2_proof ≡ some proof)
        × (layer2_root lib p ≡ some root)
        × (lib.proof_validates proof ≡ true)
        × (contains lib p j h ≡ mem h (sent_to x count j body results))
  unfolding gen_extrinsic_proof
  gen_extrinsic_proof-delivers x own count d j h root body results m made pow lt foreign =
      let (entries, collected, e) =
        bind-ok (collect x own count body results []) (λ entries. ok (layered lib count entries))
          (root, m) made in
      let filled = collect-Filled x own count body results [] entries nothing-Filled collected in
      let (p, proof, made_p, has, rooted, valid, inside) =
        layered-proof lib laws entries count d j h pow lt filled in
      let same : layered lib count entries ≡ (root, m) = ground (arith, e) in
      (
        p,
        proof,
        ap (λ r. gen_proof lib r.1 j) (sym same) ∙ made_p,
        has,
        rooted ∙ ap (λ r. some r.0) same,
        valid,
        inside
            ∙ ap (mem h) (
                collect-hashes x own count j body results [] entries foreign collected
                ∙ ap (λ l. l ++ sent_to x count j body results) (nothing_sent j)),
      )
