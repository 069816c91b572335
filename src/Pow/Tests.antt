-- ===== src/Pow/Tests.antt =====
-- A concrete node for the theorems on proofs of work: a hash of a pair that no other pair has, a
-- digest whose items are numbers and bytes, and shard 1 of two.
mod Accepted
pub mod Sent
mod Received
use native.Mathlib.Nat.{mul-le-mul}
use native.Mathlib.Decide.{dec_lt}
use yeeroot.Prelude.{
  ℕ, zero, suc, ◌+◌, ◌-◌, ◌*◌, ◌≡◌, ◌∙◌, refl, sym, ap, Bool, true, false, Option, none, some, List,
  [], ◌∷◌, ◌++◌, ◌==◌, ==_iff, if◌then◌else◌, length, arith, ◌<◌, ◌≤◌, ◌≢◌, inl, inr, ◌⊎◌,
}
use yeeroot.Pow.{
  ProofNonce, ProofMulti, WorkProof, unknown, with_nonce, multi, PowSeal, Digests, Header,
}
use yeeroot.Pow.Compact.{Proof}
use yeeroot.Pow.Compact.Climb.{climb}
use yeeroot.Pow.Target.{Context, Client}
use yeeroot.Pow.Work.{Hashing}

abbrev pub pair : ℕ → ℕ → ℕ
pair a b = (a + b) * (a + b) + a

square_gap : (s t x y : ℕ) → s < t → x ≤ s → s * s + x ≢ t * t + y
square_gap s t x y lt le h =
    let above : suc s * suc s ≤ t * t = mul-le-mul lt lt in omega (arith, above, h)

sum_of : (a b c e : ℕ) → pair a b ≡ pair c e → a + b ≡ c + e
sum_of a b c e h = elim (dec_lt (a + b) (c + e)) [
  | yes lt ↦ absurd (square_gap (a + b) (c + e) a c lt (omega arith) h)
  | no not_lt ↦ elim (dec_lt (c + e) (a + b)) [
    | yes gt ↦ absurd (square_gap (c + e) (a + b) c a gt (omega arith) (sym h))
    | no not_gt ↦ omega arith
  ]
]

pub pair_injective : (a b c e : ℕ) → pair a b ≡ pair c e → (a ≡ c) × (b ≡ e)
pair_injective a b c e h =
    let sum = sum_of a b c e h in
    let squares : (a + b) * (a + b) ≡ (c + e) * (c + e) = ap (λ (x : ℕ). x * x) sum in
    let same : a ≡ c = omega (arith, squares, h) in (same, omega (arith, same, sum))

-- Whether the nodes lead from `x` to the last of them.
abbrev pub leads : ℕ → List ℕ → List Bool → Bool
leads x [] path = false
leads x (r ∷ []) [] = x == r
leads x (r ∷ []) (b ∷ bs) = false
leads x (s ∷ u ∷ l) [] = false
leads x (s ∷ u ∷ l) (b ∷ bs) = leads (if b then pair x s else pair s x) (u ∷ l) bs

abbrev pub validates : List ℕ → List Bool → Bool
validates [] path = false
validates (x ∷ l) path = leads x l path

leads_back :
    (x r : ℕ) (ss : List ℕ) (path : List Bool)
    → length ss ≡ length path
    → leads x (ss ++ (r ∷ [])) path ≡ true
    → climb pair x ss path ≡ r
unfolding climb
leads_back x r [] [] len h = ground (arith, h)
leads_back x r [] (b ∷ bs) len h = absurd (omega arith)
leads_back x r (s ∷ ss) [] len h = absurd (omega arith)
leads_back x r (s ∷ []) (b ∷ []) len h = ground (arith, h)
leads_back x r (s ∷ []) (b ∷ c ∷ bs) len h = absurd (omega arith)
leads_back x r (s ∷ u ∷ ss) (b ∷ bs) len h =
    leads_back (if b then pair x s else pair s x) r (u ∷ ss) bs (omega arith) h

abbrev pub Item : Type 0
Item = ℕ × List ℕ

abbrev pub engine_of : Item → Option (ℕ × List ℕ)
engine_of (zero, bytes) = none
engine_of (suc id, bytes) = some (id, bytes)

abbrev pub other_of : Item → Option (List ℕ)
other_of (zero, bytes) = some bytes
other_of (suc id, bytes) = none

abbrev pub first : List ℕ → Option (ℕ × List ℕ)
first [] = none
first (n ∷ bs) = some (n, bs)

-- A seal's bytes are its time, and every seal has the target 5000000.
abbrev pub sealed_at : ℕ → WorkProof → PowSeal
sealed_at t work = record {
  authority_id = 3;
  pow_target = 5000000;
  timestamp = t;
  work_proof = work;
  relay_proof = 0;
}

abbrev pub own_nonce : WorkProof
own_nonce = with_nonce (record { extra_data = 1 ∷ 2 ∷ []; nonce = 8 })

abbrev pub read_seal : List ℕ → Option PowSeal
read_seal [] = none
read_seal (t ∷ bytes) = some (sealed_at t own_nonce)

abbrev pub digests : Digests Item
digests = record {
  consensus = λ id bytes. (suc id, bytes);
  other = λ bytes. (0, bytes);
  as_consensus = engine_of;
  as_other = other_of;
  yee_pow_engine_id = 7;
  encode_seal = λ seal. seal.timestamp ∷ [];
  decode_seal = read_seal;
  encode_num = λ n. n ∷ [];
  decode_num = first;
  encode_phase = λ phase. [];
  decode_phase = λ bytes. none;
}

-- Every header hashes to its number.
abbrev pub hashing : Hashing Item
hashing = record {
  hash = λ header. header.number;
  hash_of = λ root nonce extra. nonce;
  blake2 = λ bytes. [];
  pow_target = λ hash. hash;
  validate = λ p. validates p.lemma p.path;
}

pub validate_back :
    (x r : ℕ) (ss : List ℕ) (path : List Bool)
    → length ss ≡ length path
    → hashing.validate (record { lemma = x ∷ (ss ++ (r ∷ [])); path = path }) ≡ true
    → climb pair x ss path ≡ r
validate_back x r ss path len h = leads_back x r ss path len h

-- The header of a block of shard 1 of two, sealed at a time or not.
abbrev pub shard_log : Item
shard_log = (0, 2 ∷ 0 ∷ 1 ∷ 2 ∷ [])

abbrev pub block : ℕ → List Item → Header Item
block n rest = record {
  parent_hash = 1;
  number = n;
  state_root = 0;
  extrinsics_root = 0;
  logs = shard_log ∷ rest;
}

abbrev pub parent : Header Item
parent = block 20 ((8, 900 ∷ []) ∷ [])

abbrev pub context : Context
context = record {
  genesis_pow_target = 9000;
  genesis_pow_target_adj = 10;
  genesis_target_block_time = 2;
  genesis_shard_count = 2;
  genesis_scale_out_observe_blocks = 4;
}

abbrev pub client : Client Item
client = record {
  header_at = λ h. some parent;
  header_number = λ n. some (block n ((8, 100 ∷ []) ∷ []));
}
