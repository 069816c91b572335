-- ===== src/Pow/Verifier/Checks/Worked.antt =====
-- The work that an accepted seal shows, in either kind of proof.
use yeeroot.Prelude.{
  ℕ, ◌≡◌, ◌⊎◌, ◌<◌, ◌≤◌, ◌*◌, ◌%◌, ◌^◌, ◌++◌, refl, Bool, true, some, List, [], ◌∷◌, length, arith,
  inl, inr,
}
use yeeroot.Pow.{
  Digests, Header, PowSeal, ProofNonce, ProofMulti, WorkProof, unknown, with_nonce, multi,
}
use yeeroot.Pow.Compact.{path_of}
use yeeroot.Pow.Compact.Climb.{climb}
use yeeroot.Pow.Outcome.{ok}
use yeeroot.Pow.Work.{Hashing, check_work_proof, check_seal, push_seal, pre_hash}
use yeeroot.Pow.Work.Sound.{check_work_proof_iff_nonce, check_work_proof-climbs}
use yeeroot.Pow.Verifier.Checks.{PowVerifier, info_of}

WorkProof-cases :
    (w : WorkProof)
    → (w ≡ unknown) ⊎ (((p : ProofNonce) × (w ≡ with_nonce p)) ⊎ ((p : ProofMulti) × (w ≡ multi p)))
WorkProof-cases unknown = inl refl
WorkProof-cases (with_nonce p) = inr (inl (p, refl))
WorkProof-cases (multi p) = inr (inr (p, refl))

unknown_refused :
    {Item : Type 0} (d : Digests Item) (h : Hashing Item) (header : Header Item) (seal : PowSeal)
    (out : Item × ℕ)
    → seal.work_proof ≡ unknown
    → check_work_proof d h header seal ≡ ok out
    → ⊥
unfolding check_work_proof check_seal
unknown_refused d h header seal out none_yet worked = ground (arith, none_yet)

module _ {Item Tree : Type 0} (v : PowVerifier Item Tree) where
  module _ (node : ℕ → ℕ → ℕ)
      (validate_law : (x r : ℕ) (ss : List ℕ) (path : List Bool)
        → length ss ≡ length path
        → v.hashing.validate (record { lemma = x ∷ (ss ++ (r ∷ [])); path = path }) ≡ true
        → climb node x ss path ≡ r) where
    -- The work behind a seal for a target: a hash of the sealed header that meets it, or one of many
    -- headers' Merkle root to which the header leads from the place of its shard, with a nonce.
    abbrev pub Worked : Header Item → PowSeal → ℕ → Type 0
    Worked header seal target =
        ((p : ProofNonce) × (seal.work_proof ≡ with_nonce p)
          × (length p.extra_data ≤ 32)
          × (v.hashing.pow_target (v.hashing.hash (push_seal v.digests header seal)) ≤ target))
        ⊎ ((p : ProofMulti) × (num cnt count : ℕ) × (seal.work_proof ≡ multi p)
            × (info_of v header ≡ some (num, cnt))
            × ((count ≡ cnt) ⊎ (count ≡ cnt * 2 % 65536))
            × (num < count)
            × (count ≡ 2 ^ length p.merkle_proof)
            × (climb node (pre_hash v.digests v.hashing header seal) p.merkle_proof
                  (path_of (length p.merkle_proof) num)
                ≡ p.merkle_root)
            × (v.hashing.pow_target (v.hashing.hash_of p.merkle_root p.nonce p.extra_data)
                ≤ target))

    pub check_work_proof-Worked :
        (header : Header Item) (seal : PowSeal) (out : Item × ℕ)
        → check_work_proof v.digests v.hashing header seal ≡ ok out
        → Worked header seal seal.pow_target
    unfolding info_of
    check_work_proof-Worked header seal out worked = elim (WorkProof-cases seal.work_proof) [
      | inl none_yet ↦ absurd (unknown_refused v.digests v.hashing header seal out none_yet worked)
      | inr (inl (p, kind)) ↦
          let (short, meets, same) =
            (check_work_proof_iff_nonce v.digests v.hashing header seal p out kind).0 worked in
          inl (p, kind, short, meets)
      | inr (inr (p, kind)) ↦
          let (num, cnt, count, info, counted, small, pow, up, meets, same) =
            check_work_proof-climbs v.digests v.hashing header seal node validate_law p out kind
              worked in
          inr (p, num, cnt, count, kind, info, counted, small, pow, up, meets)
    ]
