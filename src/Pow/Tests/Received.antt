-- ===== src/Pow/Tests/Received.antt =====
-- A block of shard 1 of two with a relayed extrinsic that shard 0 sent.
use yeeroot.Prelude.{ℕ, true, none, some, List, [], ◌∷◌, length}
use yeeroot.Storage.{ℕ_key}
use yeeroot.Relay.{RelayParams, RelayTypes}
use yeeroot.Relay.RoundTrip.{encode_relay, encode_origin}
use yeeroot.Relay.Tests.{plain, plain_writers, payment}
use yeeroot.Merkle.{MultiLayerProof}
use yeeroot.Pow.{Header}
use yeeroot.Pow.Outgoing.{balances_transfer, Extrinsics, layer1_merkles}
use yeeroot.Pow.Verifier.Checks.{Foreign, ImportBlock, PowVerifier}
use yeeroot.Pow.Tests.{Item, digests, hashing, block, context, client}
use yeeroot.Pow.Tests.Sent.{forest, node}

abbrev paid : List ℕ
paid = encode_origin plain_writers 255 4 0 payment

-- Every extrinsic is a signed transfer to account 1.
abbrev transfers : Extrinsics
transfers = record {
  decode = λ bytes. some (record { is_signed = true; function = balances_transfer 1 100 });
  hash = length;
  shard_num_for = λ n count. some n;
}

abbrev sent_proof : MultiLayerProof (List ℕ)
sent_proof = record {
  layer2_merkle = some (0 ∷ 1 ∷ []);
  layer2_proof = none;
  layer1_merkles = (0, none) ∷ (1, some (length paid ∷ [])) ∷ [];
}

abbrev received_proof : MultiLayerProof (List ℕ)
received_proof = record {
  layer2_merkle = none;
  layer2_proof = some (2 ∷ []);
  layer1_merkles = (1, some (length paid ∷ [])) ∷ [];
}

abbrev neighbours : Foreign (List ℕ)
neighbours = record {
  lib = forest;
  from_bytes = λ bytes. some received_proof;
  proof_of = λ fs hash. some (5 ∷ []);
  codec = plain;
  shard_num_for = λ n count. some 0;
}

abbrev receiver : PowVerifier Item (List ℕ)
receiver = record {
  digests = digests;
  hashing = hashing;
  foreign = neighbours;
  client = client;
  context = context;
  shard_extra = node;
}

abbrev credit : RelayParams
credit = record {
  number = 9;
  hash = length paid;
  block_hash = 1;
  parent_hash = 2;
  relay_type = RelayTypes.balance;
  origin = paid;
}

abbrev credit_bytes : List ℕ
credit_bytes = encode_relay plain_writers 2 0 credit

abbrev credited : Header Item
credited = block 22 ((8, 950 ∷ []) ∷ [])

abbrev imported_credit : ImportBlock Item
imported_credit = record {
  header = block 22 [];
  proof = none;
  post_digests = (8, 950 ∷ []) ∷ [];
  body = some (credit_bytes ∷ []);
}
