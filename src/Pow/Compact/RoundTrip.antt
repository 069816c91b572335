-- ===== src/Pow/Compact/RoundTrip.antt =====
-- A Merkle proof and its compact form carry the same.
use yeeroot.Prelude.{
  ℕ, ◌-◌, ◌^◌, ◌<◌, ◌≡◌, refl, sym, ap, ◌∙◌, inr, Bool, List, [], ◌∷◌, ◌++◌, length, take, arith,
  length-append,
}
use yeeroot.Sharding.ShardNum.{log2, pow2, get_digits}
use yeeroot.Sharding.ShardNum.Digits.{get_digits-pow}
use yeeroot.Pow.Compact.{
  Proof, OriginalMerkleProof, CompactMerkleProof, path_of, parse_original, to_compact,
}

take-append : {H : Type 0} (ss ys : List H) → take (length ss) (ss ++ ys) ≡ ss
take-append [] ys = refl
take-append (s ∷ ss) ys = ap (λ l. s ∷ l) (take-append ss ys)

-- The parser's three tests, and what it gives if they pass.
abbrev pub parsed : {H : Type 0} → CompactMerkleProof H → OriginalMerkleProof H
parsed cmp = record {
  proof = record {
    lemma = cmp.item ∷ (cmp.proof ++ (cmp.root ∷ []));
    path = path_of (log2 cmp.count) cmp.num;
  };
  num = cmp.num;
  count = cmp.count;
}

pub parse_original-cases :
    {H : Type 0} (cmp : CompactMerkleProof H) (omp : OriginalMerkleProof H)
    → parse_original cmp ≡ inr omp
    → (cmp.num < cmp.count)
      × (pow2 (log2 cmp.count) ≡ cmp.count)
      × (length cmp.proof ≡ log2 cmp.count)
      × (omp ≡ parsed cmp)
unfolding parse_original
parse_original-cases cmp omp h = ground arith

parse_original-parsed :
    {H : Type 0} (cmp : CompactMerkleProof H)
    → cmp.num < cmp.count
    → pow2 (log2 cmp.count) ≡ cmp.count
    → length cmp.proof ≡ log2 cmp.count
    → parse_original cmp ≡ inr (parsed cmp)
unfolding parse_original
parse_original-parsed cmp lt pow len = ground arith

pub log2-pow2 : (d : ℕ) → d < 16 → (log2 (2 ^ d) ≡ d) × (pow2 d ≡ 2 ^ d)
unfolding get_digits
log2-pow2 d h = ground (arith, get_digits-pow d h)

between :
    {H : Type 0} (x r : H) (ss : List H)
    → take (length (x ∷ (ss ++ (r ∷ []))) - 1 - 1) (ss ++ (r ∷ [])) ≡ ss
between x r ss =
    ap (λ n. take n (ss ++ (r ∷ []))) (omega (arith, length-append ss (r ∷ [])))
    ∙ take-append ss (r ∷ [])

module _ {H : Type 0} (proof_item proof_root : Proof H → H)
    (item_first : (x : H) (l : List H) (p : List Bool)
      → proof_item (record { lemma = x ∷ l; path = p }) ≡ x)
    (root_last : (r : H) (l : List H) (p : List Bool)
      → proof_root (record { lemma = l ++ (r ∷ []); path = p }) ≡ r) where
  to_compact-nodes :
      (x r : H) (ss : List H) (p : List Bool) (n c : ℕ)
      → to_compact proof_item proof_root
          (record { proof = record { lemma = x ∷ (ss ++ (r ∷ [])); path = p }; num = n; count = c })
        ≡ record { proof = ss; item = x; root = r; num = n; count = c }
  unfolding to_compact
  to_compact-nodes x r ss p n c =
      rw (between x r ss, item_first x (ss ++ (r ∷ [])) p, root_last r (x ∷ ss) p) refl

  pub to_compact-parse_original :
      (cmp : CompactMerkleProof H) (omp : OriginalMerkleProof H)
      → parse_original cmp ≡ inr omp
      → to_compact proof_item proof_root omp ≡ cmp
  to_compact-parse_original cmp omp h =
      ap (to_compact proof_item proof_root) (parse_original-cases cmp omp h).3
      ∙ to_compact-nodes cmp.item cmp.root cmp.proof (path_of (log2 cmp.count) cmp.num) cmp.num
          cmp.count

  -- The proof of the node at `num` of `2 ^ h` nodes, `h` below 16: its leaf, one sibling on each
  -- level, the root, and the sides of the way up.
  pub parse_original-to_compact :
      (x r : H) (ss : List H) (h num : ℕ)
      → h < 16
      → num < 2 ^ h
      → length ss ≡ h
      → parse_original (
          to_compact proof_item proof_root (record {
            proof = record { lemma = x ∷ (ss ++ (r ∷ [])); path = path_of h num };
            num = num;
            count = 2 ^ h;
          }))
        ≡ inr (record {
          proof = record { lemma = x ∷ (ss ++ (r ∷ [])); path = path_of h num };
          num = num;
          count = 2 ^ h;
        })
  parse_original-to_compact x r ss h num small lt len =
      let cmp : CompactMerkleProof H = record {
        proof = ss;
        item = x;
        root = r;
        num = num;
        count = 2 ^ h;
      } in
      let (log, pow) = log2-pow2 h small in
      ap parse_original (to_compact-nodes x r ss (path_of h num) num (2 ^ h))
      ∙ parse_original-parsed cmp lt (ap pow2 log ∙ pow) (len ∙ sym log)
      ∙ rw log refl
