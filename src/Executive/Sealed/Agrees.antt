-- ===== src/Executive/Sealed/Agrees.antt =====
-- The proof that the executive rebuilds is the one that the miner of the block made.
use yeeroot.Prelude.{
  ℕ, ◌≡◌, refl, sym, ap, ◌∙◌, subst, Bool, true, false, Option, none, some, List, [], ◌∷◌, ◌==◌,
  if◌then◌else◌, arith, Option-cases, inl, inr, inl, inr,
}
use yeeroot.Executive.Interface.{Runtime}
use yeeroot.Executive.{
  Applied, applied, failed, bad_signature, stale, future, cant_pay, full_block,
  apply_extrinsic_no_note,
}
use yeeroot.Merkle.{MerkleLib, MultiLayerProof}
use yeeroot.Pow.Outcome.{ok, panic, bind-ok}
use yeeroot.Pow.Outgoing.{
  Extrinsics, ExtrinsicShard, dest_shard, note_sent, tail, collect, layered, gen_extrinsic_proof,
}
use yeeroot.Executive.Sealed.{
  Modules, present, signed_dest, push_dest, keep_sent, execute_loop, book_keeping,
  execute_extrinsics_with_book_keeping_with_proof,
}

abbrev pub is_applied : Applied → Bool
is_applied applied = true
is_applied _ = false

-- The outcomes of a body's extrinsics, one after the other, and the state behind them.
abbrev pub outcomes : {S : Type 0} → Runtime S → List (List ℕ) → S → Option (List Bool × S)
outcomes rt [] s = some ([], s)
outcomes rt (tx ∷ txs) s = elim (apply_extrinsic_no_note rt tx s) [
  | none ↦ none
  | some r ↦ elim (outcomes rt txs r.1) [ none ↦ none | some o ↦ some (is_applied r.0 ∷ o.0, o.1) ]
]

module _ {S Tree : Type 0} (rt : Runtime S) (md : Modules S) (lib : MerkleLib Tree)
    (x : Extrinsics) where
  -- The miner and the executive read the same destination and hash from each extrinsic.
  abbrev pub Agree : ℕ → List (List ℕ) → Type 0
  Agree count [] = Unit
  Agree count (tx ∷ txs) =
      (signed_dest rt md lib count tx (md.is_signed_tx tx) ≡ ok (dest_shard x count tx))
      × (x.hash tx ≡ md.tx_hash tx)
      × Agree count txs

  note_sent-push_dest :
      (cur hash : ℕ) (dest : Option ℕ) (rest : List Bool) (m : ExtrinsicShard)
      → note_sent cur hash dest (true ∷ rest) m ≡ ok (push_dest rt md lib cur hash dest m)
  unfolding note_sent push_dest
  note_sent-push_dest cur hash none rest m = refl
  note_sent-push_dest cur hash (some num) rest m = ground arith

  note_sent_failed :
      (cur hash : ℕ) (dest : Option ℕ) (rest : List Bool) (m : ExtrinsicShard)
      → note_sent cur hash dest (false ∷ rest) m ≡ ok m
  unfolding note_sent
  note_sent_failed cur hash none rest m = refl
  note_sent_failed cur hash (some num) rest m = ground arith

  keep_sent-note_sent :
      (cur count : ℕ) (tx : List ℕ) (r : Applied) (rest : List Bool) (m : ExtrinsicShard)
      → signed_dest rt md lib count tx (md.is_signed_tx tx) ≡ ok (dest_shard x count tx)
      → x.hash tx ≡ md.tx_hash tx
      → keep_sent rt md lib cur count tx r m
        ≡ note_sent cur (x.hash tx) (dest_shard x count tx) (is_applied r ∷ rest) m
  unfolding keep_sent
  keep_sent-note_sent cur count tx applied rest m same hashes =
      rw (same, hashes)
        (sym (note_sent-push_dest cur (md.tx_hash tx) (dest_shard x count tx) rest m))
  keep_sent-note_sent cur count tx failed rest m same hashes =
      sym (note_sent_failed cur (x.hash tx) (dest_shard x count tx) rest m)
  keep_sent-note_sent cur count tx bad_signature rest m same hashes =
      sym (note_sent_failed cur (x.hash tx) (dest_shard x count tx) rest m)
  keep_sent-note_sent cur count tx stale rest m same hashes =
      sym (note_sent_failed cur (x.hash tx) (dest_shard x count tx) rest m)
  keep_sent-note_sent cur count tx future rest m same hashes =
      sym (note_sent_failed cur (x.hash tx) (dest_shard x count tx) rest m)
  keep_sent-note_sent cur count tx cant_pay rest m same hashes =
      sym (note_sent_failed cur (x.hash tx) (dest_shard x count tx) rest m)
  keep_sent-note_sent cur count tx full_block rest m same hashes =
      sym (note_sent_failed cur (x.hash tx) (dest_shard x count tx) rest m)

  outcomes-step :
      (tx : List ℕ) (txs : List (List ℕ)) (s s2 : S) (results : List Bool)
      → outcomes rt (tx ∷ txs) s ≡ some (results, s2)
      → (r : Applied × S) × (rest : List Bool) × (apply_extrinsic_no_note rt tx s ≡ some r)
        × (outcomes rt txs r.1 ≡ some (rest, s2))
        × (results ≡ is_applied r.0 ∷ rest)
  outcomes-step tx txs s s2 results eq = elim (Option-cases (apply_extrinsic_no_note rt tx s)) [
    | inl died ↦ absurd (ground arith)
    | inr (r, went) ↦ elim (Option-cases (outcomes rt txs r.1)) [
      | inl died ↦ absurd (ground arith)
      | inr ((rest, s3), more) ↦ (r, rest, went, ground arith, ground arith)
    ]
  ]

  execute_loop-collect :
      (cur count : ℕ) (body : List (List ℕ)) (results : List Bool) (s s2 : S)
      (m out : ExtrinsicShard)
      → Agree count body
      → outcomes rt body s ≡ some (results, s2)
      → collect x cur count body results m ≡ ok out
      → execute_loop rt md lib cur count body s m ≡ ok (s2, out)
  unfolding execute_loop collect
  execute_loop-collect cur count [] results s s2 m out agree ran collected = ground arith
  execute_loop-collect cur count (tx ∷ txs) results s s2 m out agree ran collected =
      let ((r, s3), rest, went, more, shape) = outcomes-step tx txs s s2 results ran in
      let dest = dest_shard x count tx in
      let (m2, noted, others) =
        bind-ok (note_sent cur (x.hash tx) dest results m) _ out collected in
      let kept : keep_sent rt md lib cur count tx r m ≡ ok m2 =
        keep_sent-note_sent cur count tx r rest m agree.0 agree.1
        ∙ ap (λ l. note_sent cur (x.hash tx) dest l m) (sym shape)
        ∙ noted in
      rw (went, kept)
        (execute_loop-collect cur count txs rest s3 s2 m2 out agree.2 more
          (subst (λ l. collect x cur count txs (tail l) m2 ≡ ok out) shape others))

  -- The executive runs a block exactly if its seal has the root that the miner's
  -- `gen_extrinsic_proof` makes for the block's body: it rebuilds that root from its own outcomes, and
  -- panics on any other. The extrinsics are assumed to be applied without a panic, with the outcomes that
  -- the miner had, and to be read alike by both, destination and hash.
  pub sealed_executes :
      (cur count number root proof : ℕ) (body : List (List ℕ)) (results : List Bool) (s s2 : S)
      (p : MultiLayerProof Tree)
      → Agree count body
      → outcomes rt body s ≡ some (results, s2)
      → gen_extrinsic_proof lib x (some (cur, count)) body results ≡ ok (root, p)
      → execute_extrinsics_with_book_keeping_with_proof rt md lib body number proof cur count s
        ≡ (if root == proof then ok (book_keeping rt md lib number s2) else panic)
  unfolding gen_extrinsic_proof execute_extrinsics_with_book_keeping_with_proof present
  sealed_executes cur count number root proof body results s s2 p agree ran made =
      let (entries, collected, e) =
        bind-ok (collect x cur count body results []) (λ entries. ok (layered lib count entries))
          (root, p) made in
      let same : (layered lib count entries).0 ≡ root = ground (arith, e) in
      rw (execute_loop-collect cur count body results s s2 [] entries agree ran collected, same)
        (ground arith)
