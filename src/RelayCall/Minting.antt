-- ===== src/RelayCall/Minting.antt =====
-- srml/yee-relay/src/lib.rs: what the call does for any origin.
use yeeroot.Prelude.{ℕ, ◌+◌, ◌≤◌, ◌≡◌, Option, some, List, arith}
use yeeroot.Relay.{balance, Codec, OriginExtrinsic, decode_origin}
use yeeroot.Balances.State.{held, ok}
use yeeroot.Balances.Currency.{relay_encoded}
use yeeroot.Balances.Currency.Transfers.{relay_transfer-settles}
use yeeroot.RelayCall.{Ledgers, balance_relayed, transfer}

-- Whoever calls it, and whatever block it names, the call with bytes that read as a transfer of
-- balance makes what the accounts hold run ahead of the total issuance by the amount in the bytes, if
-- it succeeds and the total issuance covers the existential deposit.
pub transfer_mints :
    (codec : Codec) (origin : Option ℕ) (input : List ℕ) (number hash parent : ℕ)
    (tx : OriginExtrinsic) (l : Ledgers)
    → decode_origin codec balance input ≡ some tx
    → l.store.total_issuance ≡ held l.store
    → l.store.existential_deposit ≤ l.store.total_issuance
    → (transfer codec origin balance input number hash parent l).0 ≡ balance_relayed (ok tt)
    → let l' = (transfer codec origin balance input number hash parent l).1 in
      l'.store.total_issuance + tx.amount ≡ held l'.store
unfolding transfer relay_encoded
transfer_mints codec origin input number hash parent tx l known settled covers done =
    ground (arith, known, relay_transfer-settles tx.sender tx.dest tx.amount l.store settled covers)
