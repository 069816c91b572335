-- ===== src/Executive.antt =====
-- srml/yee-executive/src/lib.rs: applying the extrinsics of a block and checking those of the pool. The
-- system module, the payment, the dispatch of a call and the checks and decodings of an extrinsic
-- are parameters; an encoding is a list of bytes, a hash or an account a number, an index a `u64`.
pub mod Interface
pub mod Replay
pub mod Pool
pub mod Sealed
mod Tests
use yeeroot.Prelude.{
  ℕ, ◌+◌, ◌%◌, ◌^◌, Bool, true, false, Option, none, some, List, [], ◌∷◌, ◌++◌, ltb, leb, ◌==◌,
  if◌then◌else◌, length, ◌-◌, zero, suc, inl, inr,
}
use yeeroot.Sharding.ShardNum.{shard_num_for}
use yeeroot.Relay.{RelayParams, decode_relay, decode_origin}
use yeeroot.Executive.Interface.{
  Runtime, Checked, CheckError, invalid_account_index, unacceptable_sender, other_error, Dispatched,
  success, block_full, failure,
}

-- `internal::MAX_TRANSACTIONS_SIZE`
abbrev pub max_transactions_size : ℕ
max_transactions_size = 4194304

-- `internal::ApplyOutcome` and `internal::ApplyError` in one type.
pub data Applied : Type 0 where
  applied failed : Applied
  bad_signature stale future cant_pay full_block : Applied

pub data Validity : Type 0 where
  invalid unknown : ℕ → Validity
  valid : ℕ → List (List ℕ) → List (List ℕ) → Validity
  panic : Validity

-- `UNKNOWN_ERROR`, `MISSING_SENDER` and `INVALID_INDEX` are -127, -20 and -10; an `i8` is written in
-- two's complement.
abbrev pub unknown_error : ℕ
unknown_error = 129

abbrev pub missing_sender : ℕ
missing_sender = 236

abbrev pub invalid_index : ℕ
invalid_index = 246

module _ {S : Type 0} (rt : Runtime S) where
  unfoldable pub note : Option (List ℕ) → S → S
  note none s = s
  note (some encoded) s = rt.note_extrinsic encoded s

  unfoldable pub outcome_of : Dispatched → Applied
  outcome_of success = applied
  outcome_of block_full = full_block
  outcome_of failure = failed

  -- The end of `apply_extrinsic_with_len`: the extrinsic is noted and its call dispatched.
  unfoldable pub dispatch_noted : Checked → ℕ → Option (List ℕ) → S → Applied × S
  dispatch_noted xt encoded_len to_note s =
      let (r, s') = rt.dispatch xt.call (note to_note s) in
      (outcome_of r, rt.note_applied_extrinsic r encoded_len s')

  -- From a sender with an index.
  unfoldable pub apply_signed : ℕ → ℕ → Checked → ℕ → Option (List ℕ) → S → Applied × S
  apply_signed sender index xt encoded_len to_note s =
      let expected_index = rt.account_nonce sender s in
      let (paid, s') = rt.make_payment sender encoded_len s in
      if index == expected_index
      then (if paid
          then dispatch_noted xt encoded_len to_note (rt.inc_account_nonce sender s')
          else (cant_pay, s'))
      else if ltb index expected_index
      then (stale, s)
      else (future, s)

  -- Without a sender: a relayed extrinsic is applied once.
  unfoldable pub apply_unsigned : List ℕ → Checked → ℕ → Option (List ℕ) → S → Applied × S
  apply_unsigned origin_data xt encoded_len to_note s = elim (decode_relay rt.codec origin_data) [
    | none ↦ dispatch_noted xt encoded_len to_note s
    | some rtx ↦
        if rt.relay_extrinsic rtx.hash s == 1
        then (stale, s)
        else dispatch_noted xt encoded_len to_note (rt.set_relay_extrinsic_exist rtx.hash s)
  ]

  unfoldable pub apply_checked : List ℕ → Checked → ℕ → Option (List ℕ) → S → Applied × S
  apply_checked origin_data xt encoded_len to_note s =
      if ltb max_transactions_size ((rt.all_extrinsics_len s + encoded_len) % 2 ^ 32)
      then (full_block, s)
      else elim xt.sender [
        | none ↦ apply_unsigned origin_data xt encoded_len to_note s
        | some sender ↦ elim xt.index [
          | none ↦ apply_unsigned origin_data xt encoded_len to_note s
          | some index ↦ apply_signed sender index xt encoded_len to_note s
        ]
      ]

  -- `apply_extrinsic_with_len`, on the encoding of the extrinsic.
  unfoldable pub apply_extrinsic_with_len : List ℕ → ℕ → Option (List ℕ) → S → Applied × S
  apply_extrinsic_with_len uxt encoded_len to_note s = elim (rt.check uxt s) [
    | inl e ↦ (bad_signature, s)
    | inr xt ↦ apply_checked uxt xt encoded_len to_note s
  ]

  unfoldable pub apply_extrinsic : List ℕ → S → Applied × S
  apply_extrinsic uxt s = apply_extrinsic_with_len uxt (length uxt) (some uxt) s

  -- Inside a block, where every apply error is a panic.
  unfoldable pub is_error : Applied → Bool
  is_error applied = false
  is_error failed = false
  is_error r = true

  -- `none` is a panic.
  unfoldable pub apply_extrinsic_no_note : List ℕ → S → Option (Applied × S)
  apply_extrinsic_no_note uxt s =
      let (r, s') = apply_extrinsic_with_len uxt (length uxt) none s in
      if is_error r then none else some (r, s')

  unfoldable pub apply_all : List (List ℕ) → S → Option S
  apply_all [] s = some s
  apply_all (uxt ∷ uxts) s = elim (apply_extrinsic_no_note uxt s) [
    | none ↦ none
    | some r ↦ apply_all uxts r.1
  ]

  -- `while expected_index < *index`, with the rounds that are left.
  unfoldable pub missing_indices : ℕ → ℕ → ℕ → List (List ℕ)
  missing_indices sender expected zero = []
  missing_indices sender expected (suc rounds) =
      rt.encode_tag sender expected ∷ missing_indices sender (expected + 1) rounds

  unfoldable pub relay_check : RelayParams → ℕ → S → Validity
  relay_check rtx shard_count s =
      if rt.relay_extrinsic rtx.hash s == 1
      then invalid rt.stale_code
      else elim (decode_origin rt.codec rtx.relay_type rtx.origin) [
        | none ↦ invalid 127
        | some tx ↦ elim (shard_num_for rt.encode_account tx.sender shard_count) [
          | none ↦ panic
          | some shard_num ↦ valid 0 (rt.encode_origin shard_num rtx ∷ []) []
        ]
      ]

  unfoldable pub validate_signed : ℕ → ℕ → ℕ → S → Validity
  validate_signed sender index encoded_len s =
      let (paid, s') = rt.make_payment sender encoded_len s in
      let expected_index = rt.account_nonce sender s' in
      if paid
      then (if ltb index expected_index
          then invalid rt.stale_code
          else if ltb ((expected_index + 256) % 2 ^ 64) index
          then unknown rt.future_code
          else valid encoded_len (missing_indices sender expected_index (index - expected_index))
              (rt.encode_tag sender index ∷ []))
      else invalid rt.cant_pay_code

  unfoldable pub validate_unsigned : List ℕ → Option ℕ → ℕ → S → Validity
  validate_unsigned origin_data (some sender) shard_count s = invalid invalid_index
  validate_unsigned origin_data none shard_count s = elim (decode_relay rt.codec origin_data) [
    | none ↦ invalid missing_sender
    | some rtx ↦ relay_check rtx shard_count s
  ]

  -- `validate_transaction`; the storage it leaves is discarded.
  unfoldable pub validate_transaction : List ℕ → ℕ → S → Validity
  validate_transaction uxt shard_count s = elim (rt.check uxt s) [
    | inl invalid_account_index ↦ unknown invalid_index
    | inl CheckError.bad_signature ↦ invalid rt.bad_signature_code
    | inl unacceptable_sender ↦ invalid rt.unacceptable_sender_code
    | inl other_error ↦ invalid unknown_error
    | inr xt ↦ elim xt.sender [
      | none ↦ validate_unsigned uxt none shard_count s
      | some sender ↦ elim xt.index [
        | none ↦ validate_unsigned uxt (some sender) shard_count s
        | some index ↦ validate_signed sender index (length uxt) s
      ]
    ]
  ]
