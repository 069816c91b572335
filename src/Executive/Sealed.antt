-- ===== src/Executive/Sealed.antt =====
-- srml/yee-executive/src/lib.rs: executing a block, with the proof of what it sends to other shards
-- rebuilt and compared to the one in its seal. What the system module and the other modules do before and behind the
-- extrinsics, decoding the digest, whether an extrinsic is signed and the shard of an account are parameters.
pub mod Agrees
mod Tests
use yeeroot.Prelude.{
  ℕ, zero, suc, ◌+◌, ◌-◌, ◌/◌, ◌%◌, ◌&&◌, Bool, true, false, Option, none, some, List, [], ◌∷◌, ltb,
  leb, ◌==◌, not, if◌then◌else◌, length, get_or, drop,
}
use yeeroot.Relay.{
  Codec, RelayTypes, balance, assets, OriginExtrinsic, decode_origin, read_byte, is_signed,
  read_era_or_immortal,
}
use yeeroot.Executive.Interface.{Runtime}
use yeeroot.Executive.{Applied, applied, apply_extrinsic_no_note, apply_all}
use yeeroot.Merkle.{MerkleLib}
use yeeroot.Pow.Outcome.{Outcome, ok, err, panic, ◌>>=◌, ◌>>◌, expect, ok_or, require}
use yeeroot.Pow.Outgoing.{ExtrinsicShard, push_hash, layered}

-- A slice or an index out of range panics.
unfoldable pub present : Bool → Outcome (Unit {0})
present true = ok tt
present false = panic

unfoldable pub type_of_module : ℕ → Outcome RelayTypes
type_of_module module_index =
    if module_index == 4 then ok balance else if module_index == 8 then ok assets else err

-- What is behind the signature of an extrinsic: the sender, the signature, the index and the era are
-- read and dropped.
unfoldable pub skip_signature : Codec → Bool → List ℕ → Outcome (List ℕ)
skip_signature c false input = ok input
skip_signature c true input = do
  address_type ← ok_or (read_byte input)
  sender ← ok_or (c.read_account address_type.1)
  present (leb 64 (length sender.1))
  index ← ok_or (c.read_u64 (drop 64 sender.1))
  present (leb 1 (length index.1))
  era ← ok_or (read_era_or_immortal c index.1)
  ok era.1

-- `OriginExtrinsic::decode_type` of core/sr-primitives/src/lib.rs; `None` is an error here.
unfoldable pub decode_type : Codec → List ℕ → Outcome RelayTypes
decode_type c input = do
  len ← ok_or (c.read_len input)
  version ← ok_or (read_byte len.1)
  rest ← skip_signature c (is_signed version.0) version.1
  module_index ← ok_or (read_byte rest)
  type_of_module module_index.0

pub data DigestItemEnum : Type 0 where
  other : List ℕ → DigestItemEnum
  authorities_change changes_trie_root seal : DigestItemEnum
  consensus : ℕ → List ℕ → DigestItemEnum

pub record ShardDigestItem : Type 0 where
  pub shard_num : ℕ
  pub shard_count : ℕ

pub record Block : Type 0 where
  pub number : ℕ
  pub parent_hash : ℕ
  pub extrinsics_root : ℕ
  pub state_root : ℕ
  pub digest : List ℕ
  pub extrinsics : List (List ℕ)

pub record Modules (S : Type 0) : Type 0 where
  pub initialize : ℕ → ℕ → ℕ → S → S
  pub on_initialize : ℕ → S → S
  pub block_hash : ℕ → S → ℕ
  pub xts_root : List (List ℕ) → ℕ
  pub note_finished_extrinsics : S → S
  pub on_finalize : ℕ → S → S
  -- `final_checks`, which panic or leave the state.
  pub final_checks : Block → S → Outcome S
  pub decode_digest : List ℕ → Option (List DigestItemEnum)
  pub decode_num : List ℕ → Option (ℕ × List ℕ)
  pub decode_hash : List ℕ → Option ℕ
  pub is_signed_tx : List ℕ → Option Bool
  pub tx_hash : List ℕ → ℕ
  pub shard_num_for : ℕ → ℕ → Option ℕ

module _ {S : Type 0} (md : Modules S) where
  unfoldable pub shard_item : List ℕ → Option ShardDigestItem → Option ShardDigestItem
  shard_item data_ shard =
      if (length data_ == 6) && ((get_or data_ 0 0 == 2) && (get_or data_ 1 0 == 0))
      then (elim (md.decode_num (drop 2 data_)) [
        | some (shard_num, rest) ↦ elim (md.decode_num rest) [
          | some (shard_count, behind) ↦
              some (record { shard_num = shard_num; shard_count = shard_count })
          | none ↦ shard
        ]
        | none ↦ shard
      ])
      else shard

  unfoldable pub seal_item : List ℕ → Option ℕ → Option ℕ
  seal_item data_ relay_proof =
      if leb 32 (length data_)
      then (elim (md.decode_hash (drop (length data_ - 32) data_)) [
        | some proof ↦ some proof
        | none ↦ relay_proof
      ])
      else relay_proof

  -- The loop over the logs: the last item of each kind counts.
  unfoldable pub digest_loop :
      List DigestItemEnum → Option ShardDigestItem → Option ℕ → Option ShardDigestItem × Option ℕ
  digest_loop [] shard relay_proof = (shard, relay_proof)
  digest_loop (other data_ ∷ logs) shard relay_proof =
      digest_loop logs (shard_item data_ shard) relay_proof
  digest_loop (consensus id data_ ∷ logs) shard relay_proof =
      digest_loop logs shard (seal_item data_ relay_proof)
  digest_loop (authorities_change ∷ logs) shard relay_proof = digest_loop logs shard relay_proof
  digest_loop (changes_trie_root ∷ logs) shard relay_proof = digest_loop logs shard relay_proof
  digest_loop (seal ∷ logs) shard relay_proof = digest_loop logs shard relay_proof

  unfoldable pub digest_items : List ℕ → Outcome (Option ShardDigestItem × Option ℕ)
  digest_items logs = do items ← expect (md.decode_digest logs); ok (digest_loop items none none)

module _ {S Tree : Type 0} (rt : Runtime S) (md : Modules S) (lib : MerkleLib Tree) where
  -- The destination shard of a signed extrinsic, if it reads as a transfer. A type that cannot be
  -- read counts as none.
  unfoldable pub typed_dest : ℕ → List ℕ → Outcome RelayTypes → Outcome (Option ℕ)
  typed_dest shard_count bytes (ok ex_type) = ok (elim (decode_origin rt.codec ex_type bytes) [
    | some ex ↦ md.shard_num_for ex.dest shard_count
    | none ↦ none
  ])
  typed_dest shard_count bytes err = ok none
  typed_dest shard_count bytes panic = panic

  unfoldable pub signed_dest : ℕ → List ℕ → Option Bool → Outcome (Option ℕ)
  signed_dest shard_count bytes (some true) =
      typed_dest shard_count bytes (decode_type rt.codec bytes)
  signed_dest shard_count bytes (some false) = ok none
  signed_dest shard_count bytes none = ok none

  unfoldable pub push_dest : ℕ → ℕ → Option ℕ → ExtrinsicShard → ExtrinsicShard
  push_dest cur_shard hash none m = m
  push_dest cur_shard hash (some num) m = if num == cur_shard then m else push_hash num hash m

  -- After a success the hash is kept for the destination's shard.
  unfoldable pub keep_sent : ℕ → ℕ → List ℕ → Applied → ExtrinsicShard → Outcome ExtrinsicShard
  keep_sent cur_shard shard_count tx applied m = do
    dest ← signed_dest shard_count tx (md.is_signed_tx tx)
    ok (push_dest cur_shard (md.tx_hash tx) dest m)
  keep_sent cur_shard shard_count tx _ m = ok m

  unfoldable pub execute_loop :
      ℕ → ℕ → List (List ℕ) → S → ExtrinsicShard → Outcome (S × ExtrinsicShard)
  execute_loop cur_shard shard_count [] s m = ok (s, m)
  execute_loop cur_shard shard_count (tx ∷ txs) s m = do
    r ← expect (apply_extrinsic_no_note rt tx s)
    m2 ← keep_sent cur_shard shard_count tx r.0 m
    execute_loop cur_shard shard_count txs r.1 m2

  unfoldable pub book_keeping : ℕ → S → S
  book_keeping block_number s = md.on_finalize block_number (md.note_finished_extrinsics s)

  unfoldable pub execute_extrinsics_with_book_keeping_with_proof :
      List (List ℕ) → ℕ → ℕ → ℕ → ℕ → S → Outcome S
  execute_extrinsics_with_book_keeping_with_proof extrinsics block_number proof cur_shard
        shard_count s =
      do
        r ← execute_loop cur_shard shard_count extrinsics s []
        present ((layered lib shard_count r.1).0 == proof)
        ok (book_keeping block_number r.0)

  unfoldable pub execute_extrinsics_with_book_keeping : List (List ℕ) → ℕ → S → Outcome S
  execute_extrinsics_with_book_keeping extrinsics block_number s = do
    s2 ← expect (apply_all rt extrinsics s)
    ok (book_keeping block_number s2)

  unfoldable pub initialize_block : Block → S → S
  initialize_block b s =
      md.on_initialize b.number (md.initialize b.number b.parent_hash b.extrinsics_root s)

  unfoldable pub initial_checks : Block → S → Outcome (Unit {0})
  initial_checks b s = do
    present (ltb 0 b.number && (md.block_hash (b.number - 1) s == b.parent_hash))
    present (b.extrinsics_root == md.xts_root b.extrinsics)

  unfoldable pub execute_by : Block → S → Option ShardDigestItem × Option ℕ → Outcome S
  execute_by b s (some shard, some relay_proof) =
      execute_extrinsics_with_book_keeping_with_proof b.extrinsics b.number relay_proof
        shard.shard_num shard.shard_count s
  execute_by b s (some shard, none) = execute_extrinsics_with_book_keeping b.extrinsics b.number s
  execute_by b s (none, relay_proof) = execute_extrinsics_with_book_keeping b.extrinsics b.number s

  unfoldable pub extra_items : Option (List ℕ) → Outcome (Option ShardDigestItem × Option ℕ)
  extra_items none = ok (none, none)
  extra_items (some extra) = digest_items md extra

  unfoldable pub execute_block : Block → Option (List ℕ) → S → Outcome S
  execute_block b extra s = do
    let begun = initialize_block b s
    initial_checks b begun
    items ← extra_items extra
    s2 ← execute_by b begun items
    md.final_checks b s2
