-- ===== src/Executive/Interface.antt =====
-- srml/yee-executive/src/lib.rs: what the executive calls of other modules. The laws are what it
-- relies on to apply no extrinsic twice.
use yeeroot.Prelude.{ℕ, suc, ◌≡◌, Bool, Option, List, ◌⊎◌, ◌==◌, if◌then◌else◌}
use yeeroot.Relay.{Codec, RelayParams}

-- `Checkable::check`, `Applyable::sender`, `index` and the call.
pub record Checked : Type 0 where
  pub sender : Option ℕ
  pub index : Option ℕ
  pub call : List ℕ

pub data CheckError : Type 0 where
  invalid_account_index bad_signature unacceptable_sender other_error : CheckError

pub data Dispatched : Type 0 where
  success block_full failure : Dispatched

pub record Runtime (S : Type 0) : Type 0 where
  pub check : List ℕ → S → CheckError ⊎ Checked
  pub codec : Codec
  pub account_nonce : ℕ → S → ℕ
  pub inc_account_nonce : ℕ → S → S
  pub relay_extrinsic : ℕ → S → ℕ
  pub set_relay_extrinsic_exist : ℕ → S → S
  pub all_extrinsics_len : S → ℕ
  pub note_extrinsic : List ℕ → S → S
  pub note_applied_extrinsic : Dispatched → ℕ → S → S
  pub make_payment : ℕ → ℕ → S → Bool × S
  pub dispatch : List ℕ → S → Dispatched × S
  -- Encodings of an account, of an account's tag with its index and of a relay's origin.
  pub encode_account : ℕ → List ℕ
  pub encode_tag : ℕ → ℕ → List ℕ
  pub encode_origin : ℕ → RelayParams → List ℕ
  -- The `ApplyError`s as `i8`.
  pub stale_code : ℕ
  pub future_code : ℕ
  pub cant_pay_code : ℕ
  pub bad_signature_code : ℕ
  pub unacceptable_sender_code : ℕ

-- The system module counts an account's extrinsics and remembers the relayed ones, and the notes and
-- the payment leave the counts as they are. A call can kill an account, which takes away its count.
pub record SystemLaws {S : Type 0} (rt : Runtime S) : Type 0 where
  pub nonce_inc :
      (who j : ℕ) (s : S)
      → rt.account_nonce j (rt.inc_account_nonce who s)
        ≡ (if j == who then suc (rt.account_nonce who s) else rt.account_nonce j s)
  pub nonce_payment :
      (who len j : ℕ) (s : S)
      → rt.account_nonce j (rt.make_payment who len s).1 ≡ rt.account_nonce j s
  pub nonce_note :
      (e : List ℕ) (j : ℕ) (s : S)
      → rt.account_nonce j (rt.note_extrinsic e s) ≡ rt.account_nonce j s
  pub nonce_applied :
      (r : Dispatched) (len j : ℕ) (s : S)
      → rt.account_nonce j (rt.note_applied_extrinsic r len s) ≡ rt.account_nonce j s
  pub relay_set : (h : ℕ) (s : S) → rt.relay_extrinsic h (rt.set_relay_extrinsic_exist h s) ≡ 1
  pub relay_note :
      (e : List ℕ) (h : ℕ) (s : S)
      → rt.relay_extrinsic h (rt.note_extrinsic e s) ≡ rt.relay_extrinsic h s
  pub relay_applied :
      (r : Dispatched) (len h : ℕ) (s : S)
      → rt.relay_extrinsic h (rt.note_applied_extrinsic r len s) ≡ rt.relay_extrinsic h s
  pub relay_dispatch :
      (c : List ℕ) (h : ℕ) (s : S)
      → rt.relay_extrinsic h (rt.dispatch c s).1 ≡ rt.relay_extrinsic h s
