-- ===== src/Executive/Sealed/Tests.antt =====
-- A sealed block with one transfer from shard 0 to shard 1 at a concrete runtime.
use yeeroot.Prelude.{
  ℕ, suc, ◌≡◌, refl, true, some, none, List, [], ◌∷◌, inr, length, ◌==◌, if◌then◌else◌,
}
use yeeroot.Storage.{lookup, write}
use yeeroot.Relay.{RelayTypes, read_byte, is_signed, read_era_or_immortal}
use yeeroot.Relay.RoundTrip.{
  encode_origin, encode_signature, encode_target, decode_origin-encode_origin,
}
use yeeroot.Relay.Tests.{plain, plain_writers, plain-CodecLaws, payment}
use yeeroot.Executive.Interface.{Runtime, success}
use yeeroot.Executive.{
  note, outcome_of, dispatch_noted, apply_signed, apply_checked, apply_extrinsic_with_len, is_error,
  apply_extrinsic_no_note,
}
use yeeroot.Merkle.{MultiLayerProof, new_with_layer2}
use yeeroot.Pow.Outcome.{ok, panic}
use yeeroot.Pow.Outgoing.{
  balances_transfer, Extrinsics, collect, note_sent, push_hash, sent_hashes, dest_shard, sent_by,
  dest_of, layered, layer1_merkles, layer2_leaves, layer1_tree, layer2_leaf, gen_extrinsic_proof,
}
use yeeroot.Pow.Tests.Sent.{forest}
use yeeroot.Executive.Sealed.{
  Modules, present, type_of_module, skip_signature, decode_type, typed_dest, signed_dest,
  book_keeping, execute_extrinsics_with_book_keeping_with_proof,
}
use yeeroot.Executive.Sealed.Agrees.{outcomes, sealed_executes}

-- The state counts the extrinsics of account 5.
abbrev counting : Runtime ℕ
counting = record {
  check = λ uxt s. inr (record { sender = some 5; index = some s; call = [] });
  codec = plain;
  account_nonce = λ who s. s;
  inc_account_nonce = λ who s. suc s;
  relay_extrinsic = λ hash s. 0;
  set_relay_extrinsic_exist = λ hash s. s;
  all_extrinsics_len = λ s. 0;
  note_extrinsic = λ e s. s;
  note_applied_extrinsic = λ r len s. s;
  make_payment = λ who len s. (true, s);
  dispatch = λ c s. (success, s);
  encode_account = λ a. a ∷ [];
  encode_tag = λ a n. a ∷ n ∷ [];
  encode_origin = λ n r. n ∷ [];
  stale_code = 1;
  future_code = 2;
  cant_pay_code = 3;
  bad_signature_code = 4;
  unacceptable_sender_code = 5;
}

abbrev modules : Modules ℕ
modules = record {
  initialize = λ n p x s. s;
  on_initialize = λ n s. s;
  block_hash = λ n s. 0;
  xts_root = length;
  note_finished_extrinsics = λ s. s;
  on_finalize = λ n s. s;
  final_checks = λ b s. ok s;
  decode_digest = λ bytes. none;
  decode_num = λ bytes. none;
  decode_hash = λ bytes. none;
  is_signed_tx = λ tx. some true;
  tx_hash = λ tx. 3;
  shard_num_for = λ n count. some 1;
}

abbrev miner : Extrinsics
miner = record {
  decode = λ tx. some (record { is_signed = true; function = balances_transfer 8 100 });
  hash = λ tx. 3;
  shard_num_for = λ n count. some 1;
}

abbrev transfer : List ℕ
transfer = encode_origin plain_writers 255 4 0 payment

abbrev whole : MultiLayerProof (List ℕ)
whole = record {
  layer2_merkle = some (0 ∷ 1 ∷ []);
  layer2_proof = none;
  layer1_merkles = (0, none) ∷ (1, some (3 ∷ [])) ∷ [];
}

transfer_made :
    gen_extrinsic_proof forest miner (some (0, 2)) (transfer ∷ []) (true ∷ []) ≡ ok (2, whole)
unfolding gen_extrinsic_proof collect note_sent push_hash sent_hashes dest_shard sent_by dest_of
    layered layer1_merkles layer2_leaves layer1_tree layer2_leaf lookup write new_with_layer2
transfer_made = refl

transfer_ran : outcomes counting (transfer ∷ []) 7 ≡ some (true ∷ [], 8)
unfolding apply_extrinsic_no_note apply_extrinsic_with_len apply_checked apply_signed dispatch_noted
    note outcome_of is_error encode_origin encode_signature encode_target
transfer_ran = refl

transfer_typed : decode_type plain transfer ≡ ok RelayTypes.balance
unfolding decode_type type_of_module skip_signature read_byte is_signed read_era_or_immortal present
    encode_origin encode_signature encode_target
transfer_typed = refl

transfer_dest :
    signed_dest counting modules forest 2 transfer (some true) ≡ ok (dest_shard miner 2 transfer)
unfolding signed_dest typed_dest dest_shard sent_by dest_of
transfer_dest =
    rw
      (
        transfer_typed,
        decode_origin-encode_origin plain plain_writers 255 4 0 payment plain-CodecLaws refl refl
            refl refl,
      )
      refl

sealed_executes_example :
    execute_extrinsics_with_book_keeping_with_proof counting modules forest
      (transfer ∷ [])
      9
      2
      0
      2
      7
    ≡ (if 2 == 2 then ok (book_keeping counting modules forest 9 8) else panic)
sealed_executes_example =
    sealed_executes counting modules forest miner 0 2 9 2 2 (transfer ∷ []) (true ∷ []) 7 8 whole
      (transfer_dest, refl, tt) transfer_ran transfer_made
