-- ===== src/Executive/Tests.antt =====
-- The theorems on the executive at a concrete runtime, whose storage is the accounts' counts and the
-- relayed extrinsics' marks.
use yeeroot.Prelude.{
  ℕ, suc, ◌+◌, ◌<◌, ◌≤◌, ◌≡◌, ◌⊎◌, inr, refl, true, false, none, some, List, [], ◌∷◌, arith, length,
  get_elem?, ◌==◌, if◌then◌else◌,
}
use yeeroot.Relay.{decode_relay, read_byte, is_signed, version_of}
use yeeroot.Relay.RoundTrip.{encode_relay, decode_relay-encode_relay}
use yeeroot.Relay.Tests.{relayed, plain, plain_writers, plain-CodecLaws}
use yeeroot.Executive.Interface.{Runtime, Checked, success, SystemLaws}
use yeeroot.Executive.{
  applied, failed, stale, full_block, valid, note, outcome_of, dispatch_noted, apply_signed,
  apply_unsigned, apply_checked, apply_extrinsic_with_len, apply_extrinsic, is_error,
  missing_indices, validate_signed, validate_transaction,
}
use yeeroot.Executive.Replay.{relay_once, signed_once}
use yeeroot.Executive.Pool.{validate_transaction-applies}

-- The accounts' counts and the relayed extrinsics' marks.
abbrev Counts : Type 0
Counts = (ℕ → ℕ) × (ℕ → ℕ)

abbrev counts : ℕ → Counts
counts n = (λ who. n, λ hash. 0)

abbrev count_up : ℕ → Counts → Counts
count_up who s = (λ j. if j == who then suc (s.0 who) else s.0 j, s.1)

abbrev mark : ℕ → Counts → Counts
mark hash s = (s.0, λ j. if j == hash then 1 else s.1 j)

abbrev signed : Checked
signed = record { sender = some 5; index = some 3; call = [] }

abbrev unsigned : Checked
unsigned = record { sender = none; index = none; call = [] }

-- A relayed extrinsic in bytes.
abbrev relay_bytes : List ℕ
relay_bytes = encode_relay plain_writers 2 0 relayed

relay_read : decode_relay plain relay_bytes ≡ some relayed
unfolding encode_relay
relay_read =
    decode_relay-encode_relay plain plain_writers 2 0 relayed plain-CodecLaws refl (omega arith)

abbrev small : Runtime Counts
small = record {
  check = λ uxt s. inr (if length uxt == 1 then signed else unsigned);
  codec = plain;
  account_nonce = λ who s. s.0 who;
  inc_account_nonce = count_up;
  relay_extrinsic = λ hash s. s.1 hash;
  set_relay_extrinsic_exist = mark;
  all_extrinsics_len = λ s. 0;
  note_extrinsic = λ e s. s;
  note_applied_extrinsic = λ r len s. s;
  make_payment = λ who len s. (true, s);
  dispatch = λ c s. (success, s);
  encode_account = λ a. a ∷ a ∷ [];
  encode_tag = λ a n. a ∷ n ∷ [];
  encode_origin = λ n r. n ∷ [];
  stale_code = 1;
  future_code = 2;
  cant_pay_code = 3;
  bad_signature_code = 4;
  unacceptable_sender_code = 5;
}

small-SystemLaws : SystemLaws small
small-SystemLaws = record {
  nonce_inc = λ who j s. ground arith;
  nonce_payment = λ who len j s. refl;
  nonce_note = λ e j s. refl;
  nonce_applied = λ r len j s. refl;
  relay_set = λ h s. ground arith;
  relay_note = λ e h s. refl;
  relay_applied = λ r len h s. refl;
  relay_dispatch = λ c h s. refl;
}

is_stale : (apply_extrinsic_with_len small (0 ∷ []) 1 none (counts 4)).0 ≡ stale
unfolding apply_extrinsic_with_len apply_checked apply_signed
is_stale = refl

relay_went :
    is_error small (apply_extrinsic_with_len small relay_bytes 148 none (counts 3)).0 ≡ false
unfolding apply_extrinsic_with_len apply_checked apply_unsigned dispatch_noted note outcome_of
    is_error encode_relay decode_relay read_byte is_signed version_of
relay_went = refl

relay_once_example :
    let s' = (apply_extrinsic_with_len small relay_bytes 148 none (counts 3)).1 in
    let (r, t) = apply_extrinsic_with_len small relay_bytes 148 none s' in
    ((r ≡ stale) ⊎ (r ≡ full_block)) × (t ≡ s')
unfolding encode_relay
relay_once_example =
    relay_once small relay_bytes 148 none relayed unsigned unsigned (counts 3) small-SystemLaws refl
      refl relay_read relay_went refl refl

signed_went : is_error small (apply_extrinsic_with_len small (0 ∷ []) 1 none (counts 3)).0 ≡ false
unfolding apply_extrinsic_with_len apply_checked apply_signed dispatch_noted note outcome_of
    is_error
signed_went = refl

signed_once_example :
    let s' = (apply_extrinsic_with_len small (0 ∷ []) 1 none (counts 3)).1 in
    let (r, t) = apply_extrinsic_with_len small (0 ∷ []) 1 none s' in
    ((r ≡ stale) ⊎ (r ≡ full_block)) × (t ≡ s')
signed_once_example =
    signed_once small (0 ∷ []) 1 none 5 3 signed signed (counts 3) small-SystemLaws (λ t. refl) refl
      refl refl signed_went refl refl refl

is_valid :
    validate_transaction small (0 ∷ []) 2 (counts 1)
    ≡ valid 1 ((5 ∷ 1 ∷ []) ∷ (5 ∷ 2 ∷ []) ∷ []) ((5 ∷ 3 ∷ []) ∷ [])
unfolding validate_transaction validate_signed missing_indices
is_valid = refl

validate_transaction-applies_example :
    let req : List (List ℕ) = (5 ∷ 1 ∷ []) ∷ (5 ∷ 2 ∷ []) ∷ [] in
    let r = (apply_extrinsic small (0 ∷ []) (counts 1)).0 in
    let prov : List (List ℕ) = (5 ∷ 3 ∷ []) ∷ [] in
    (prov ≡ prov)
    × (length req + 1 ≡ 3)
    × (get_elem? req 1 ≡ some (5 ∷ 2 ∷ []))
    × (length req ≤ 256)
    × ((0 < length req) ⊎ ((r ≡ applied) ⊎ ((r ≡ failed) ⊎ (r ≡ full_block))))
validate_transaction-applies_example =
    validate_transaction-applies small (0 ∷ []) 2 5 3 1 ((5 ∷ 1 ∷ []) ∷ (5 ∷ 2 ∷ []) ∷ [])
      ((5 ∷ 3 ∷ []) ∷ []) signed (counts 1) 1 small-SystemLaws refl refl refl (omega arith) is_valid
