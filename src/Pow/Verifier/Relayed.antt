-- ===== src/Pow/Verifier/Relayed.antt =====
-- A relayed extrinsic at its destination, against the block that sent it.
use yeeroot.Prelude.{
  ℕ, ◌^◌, ◌<◌, ◌≡◌, ◌≢◌, refl, sym, ap, ◌∙◌, subst, Bool, true, false, some, List, [], ◌∷◌,
  get_elem?, zero, suc, if◌then◌else◌, arith,
}
use yeeroot.Relay.{RelayParams, OriginExtrinsic, decode_relay, decode_origin}
use yeeroot.Pow.Outcome.{
  ok, err, panic, expect, ok_or, require, bind-ok, expect-ok, ok_or-ok, require-ok,
}
use yeeroot.Merkle.{
  MultiLayerProof, new_with_layer2, MerkleLaws, mem, gen_proof, layer2_root, contains,
}
use yeeroot.Pow.Outgoing.{Extrinsics, ExtrinsicShard, collect, layered, gen_extrinsic_proof}
use yeeroot.Pow.Outgoing.Delivered.{sent_to, gen_extrinsic_proof-delivers}
use yeeroot.Pow.Verifier.{ShardExtra}
use yeeroot.Pow.Verifier.Checks.{
  Foreign, has_root, check_layers, check_relay_merkle_proof, in_proof, check_relay, check_extrinsic,
  check_each,
}

module _ {Tree : Type 0} (g : Foreign Tree) (extra : ShardExtra) where
  check_relay-ok :
      (rt : RelayParams)
      → check_relay g extra rt ≡ ok tt
      → (origin : OriginExtrinsic) × (fs : ℕ) × (decode_origin g.codec rt.relay_type rt.origin
          ≡ some origin)
        × (g.shard_num_for origin.sender extra.shard_count ≡ some fs)
        × (in_proof g extra fs rt ≡ true)
  unfolding check_relay
  check_relay-ok rt eq =
      let (origin, e1, r1) =
        bind-ok (ok_or (decode_origin g.codec rt.relay_type rt.origin)) _ tt eq in
      let (fs, e2, r2) =
        bind-ok (expect (g.shard_num_for origin.sender extra.shard_count)) _ tt r1 in
      (
        origin,
        fs,
        ok_or-ok (decode_origin g.codec rt.relay_type rt.origin) origin e1,
        expect-ok (g.shard_num_for origin.sender extra.shard_count) fs e2,
        require-ok (in_proof g extra fs rt) tt r2,
      )

  checked_relay :
      (tx : List ℕ) (rt : RelayParams)
      → check_extrinsic g extra tx ≡ ok tt
      → decode_relay g.codec tx ≡ some rt
      → check_relay g extra rt ≡ ok tt
  unfolding check_extrinsic
  checked_relay tx rt passed reads = ground (arith, passed, reads)

  check_each-step :
      (x : List ℕ) (exs : List (List ℕ))
      → check_each g extra (x ∷ exs) ≡ ok tt
      → (check_extrinsic g extra x ≡ ok tt) × (check_each g extra exs ≡ ok tt)
  unfolding check_each
  check_each-step x exs passed =
      let (u, e, r) = bind-ok (check_extrinsic g extra x) _ tt passed in (e, r)

  check_each-at :
      (exs : List (List ℕ)) (i : ℕ) (tx : List ℕ)
      → check_each g extra exs ≡ ok tt
      → get_elem? exs i ≡ some tx
      → check_extrinsic g extra tx ≡ ok tt
  check_each-at [] i tx passed at_i = absurd (ground arith)
  check_each-at (x ∷ exs) zero tx passed at_i =
      let same : x ≡ tx = ground arith in
      subst (λ y. check_extrinsic g extra y ≡ ok tt) same (check_each-step x exs passed).0
  check_each-at (x ∷ exs) (suc i) tx passed at_i =
      check_each-at exs i tx (check_each-step x exs passed).1 at_i

  pub check_each-relay :
      (exs : List (List ℕ)) (i : ℕ) (tx : List ℕ) (rt : RelayParams)
      → check_each g extra exs ≡ ok tt
      → get_elem? exs i ≡ some tx
      → decode_relay g.codec tx ≡ some rt
      → check_relay g extra rt ≡ ok tt
  check_each-relay exs i tx rt passed at_i reads =
      checked_relay tx rt (check_each-at exs i tx passed at_i) reads

  -- In a body that passes the check, every relayed extrinsic has a readable origin whose sender is on
  -- a shard, and the proof stored for its block of that shard contains it for the node's shard.
  pub check_each-relayed :
      (exs : List (List ℕ)) (i : ℕ) (tx : List ℕ) (rt : RelayParams)
      → check_each g extra exs ≡ ok tt
      → get_elem? exs i ≡ some tx
      → decode_relay g.codec tx ≡ some rt
      → (origin : OriginExtrinsic) × (fs : ℕ) × (decode_origin g.codec rt.relay_type rt.origin
          ≡ some origin)
        × (g.shard_num_for origin.sender extra.shard_count ≡ some fs)
        × (in_proof g extra fs rt ≡ true)
  check_each-relayed exs i tx rt passed at_i reads =
      check_relay-ok rt (check_each-relay exs i tx rt passed at_i reads)

require_if : (b : Bool) → require b ≡ (if b then ok tt else err)
require_if true = refl
require_if false = refl

-- The destination's decisions on what shard `own` sent it, from the proof that was made for it.
module _ {Tree : Type 0} (g : Foreign Tree) (laws : MerkleLaws g.lib) where
  has_root_lem :
      (p : MultiLayerProof Tree) (root : ℕ)
      → layer2_root g.lib p ≡ some root
      → has_root g p root ≡ true
  unfolding has_root
  has_root_lem p root e = ground (arith, e)

  in_proof-stored :
      (extra : ShardExtra) (rt : RelayParams) (fs : ℕ) (bytes : List ℕ) (p : MultiLayerProof Tree)
      → g.proof_of fs rt.block_hash ≡ some bytes
      → g.from_bytes bytes ≡ some p
      → in_proof g extra fs rt ≡ contains g.lib p extra.shard_num rt.hash
  unfolding in_proof
  in_proof-stored extra rt fs bytes p stored reads = ground (arith, stored, reads)

  check_layers-ok :
      (p : MultiLayerProof Tree) (proof : List ℕ) (root : ℕ)
      → layer2_root g.lib p ≡ some root
      → p.layer2_proof ≡ some proof
      → g.lib.proof_validates proof ≡ true
      → check_layers g p root ≡ ok tt
  unfolding check_layers
  check_layers-ok p proof root rooted has valid = rw (has_root_lem p root rooted, has, valid) refl

  -- The destination `j`, one of `2 ^ d` shards and not `own`, decides on what block `own` made and
  -- sent it: it accepts the block's proof, and it accepts a relayed extrinsic of the block, from a
  -- sender on shard `own`, exactly if the block has a signed transfer with its hash to shard `j` that
  -- succeeded. The proof is assumed to be made for `j` and stored for the block that the extrinsic
  -- names, the origin to be readable, and the Merkle library to keep the leaves of a tree and to make
  -- valid proofs.
  pub check_relay-gen_extrinsic_proof :
      (x : Extrinsics) (own count d j root : ℕ) (body : List (List ℕ)) (results : List Bool)
      (m p : MultiLayerProof Tree) (bytes : List ℕ) (extra : ShardExtra) (rt : RelayParams)
      (origin : OriginExtrinsic)
      → gen_extrinsic_proof g.lib x (some (own, count)) body results ≡ ok (root, m)
      → count ≡ 2 ^ d
      → j < count
      → j ≢ own
      → gen_proof g.lib m j ≡ some p
      → g.from_bytes bytes ≡ some p
      → g.proof_of own rt.block_hash ≡ some bytes
      → extra.shard_num ≡ j
      → decode_origin g.codec rt.relay_type rt.origin ≡ some origin
      → g.shard_num_for origin.sender extra.shard_count ≡ some own
      → (check_relay_merkle_proof g (some bytes) root ≡ ok tt)
        × (check_relay g extra rt
            ≡ (if mem rt.hash (sent_to x count j body results) then ok tt else err))
  unfolding check_relay_merkle_proof check_relay
  check_relay-gen_extrinsic_proof x own count d j root body results m p bytes extra rt origin made
        pow lt foreign cut reads stored here readable home =
      let (q, proof, made_q, has, rooted, valid, inside) =
        gen_extrinsic_proof-delivers g.lib laws x own count d j rt.hash root body results m made pow
          lt foreign in
      let same : q ≡ p = ground (arith, made_q, cut) in
      let holds : contains g.lib p extra.shard_num rt.hash
          ≡ mem rt.hash (sent_to x count j body results) =
        ap (λ k. contains g.lib p k rt.hash) here
        ∙ ap (λ y. contains g.lib y j rt.hash) (sym same)
        ∙ inside in
      (
        rw reads (
            check_layers-ok p proof root (subst (λ y. layer2_root g.lib y ≡ some root) same rooted)
              (subst (λ y. y.layer2_proof ≡ some proof) same has) valid),
        rw (readable, home, in_proof-stored extra rt own bytes p stored reads, holds)
            (require_if (mem rt.hash (sent_to x count j body results))),
      )

module _ {Tree : Type 0} (g : Foreign Tree) where
  check_layers-layered :
      (count : ℕ) (entries : ExtrinsicShard)
      → check_layers g (layered g.lib count entries).1 (layered g.lib count entries).0 ≡ panic
  unfolding check_layers has_root layer2_root layered new_with_layer2
  check_layers-layered count entries = ground arith

  -- The proof that a block is made with, before it is cut for a shard, makes the verifier of the
  -- block panic.
  pub check_relay_merkle_proof-panics :
      (x : Extrinsics) (own count root : ℕ) (body : List (List ℕ)) (results : List Bool)
      (m : MultiLayerProof Tree) (bytes : List ℕ)
      → gen_extrinsic_proof g.lib x (some (own, count)) body results ≡ ok (root, m)
      → g.from_bytes bytes ≡ some m
      → check_relay_merkle_proof g (some bytes) root ≡ panic
  unfolding check_relay_merkle_proof gen_extrinsic_proof
  check_relay_merkle_proof-panics x own count root body results m bytes made reads =
      let (entries, collected, e) =
        bind-ok (collect x own count body results []) (λ entries. ok (layered g.lib count entries))
          (root, m) made in
      let same : layered g.lib count entries ≡ (root, m) = ground (arith, e) in
      rw reads
        (subst (λ r. check_layers g r.1 r.0 ≡ panic) same (check_layers-layered count entries))
