-- ===== src/RelayCall.antt =====
-- srml/yee-relay/src/lib.rs: the call that credits what another shard relays. It takes any origin.
pub mod Minting
mod Tests
use yeeroot.Prelude.{ℕ, Option, List}
use yeeroot.Relay.{RelayTypes, balance, assets, Codec}
use yeeroot.Balances.State.{Store, Outcome}
use yeeroot.Balances.Currency.{relay_encoded}
use yeeroot.Assets.{Assets, AssetResult, relay_transfer}

pub record Ledgers : Type 0 where
  pub store : Store
  pub holdings : Assets

pub data Relayed : Type 0 where
  balance_relayed : Outcome (Unit {0}) → Relayed
  assets_relayed : AssetResult → Relayed

-- The origin is `none` for an unsigned extrinsic; neither it nor the number, the hash and the parent
-- of the other shard's block is looked at.
unfoldable pub transfer :
    Codec → Option ℕ → RelayTypes → List ℕ → ℕ → ℕ → ℕ → Ledgers → Relayed × Ledgers
transfer codec origin balance tx number hash parent l =
    let (r, s) = relay_encoded codec tx l.store in (balance_relayed r, record l { store = s })
transfer codec origin assets tx number hash parent l =
    let (r, s) = relay_transfer codec tx l.holdings in (assets_relayed r, record l { holdings = s })
