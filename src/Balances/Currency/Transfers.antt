-- ===== src/Balances/Currency/Transfers.antt =====
-- `Currency::transfer` and `relay_transfer`: what is moved, and what a refused call leaves.
use yeeroot.Prelude.{ℕ, ◌+◌, ◌-◌, ◌≤◌, ◌≡◌, ◌≢◌, refl, List, some, arith, ◌==◌, if◌then◌else◌}
use yeeroot.Sharding.ShardNum.{shard_num_for}
use yeeroot.Sharding.ScaleOut.{get_curr_shard, get_shard_count}
use yeeroot.Balances.State.{Store, WithdrawReason, Event, free_balance, held, ok, deposit_event}
use yeeroot.Balances.Account.{set_free_balance}
use yeeroot.Balances.Account.Effects.{dust, set_free_balance-settles}
use yeeroot.Balances.Currency.{
  ensure_can_withdraw, transfer_checked, transfer, relay_transfer, create_if_absent,
}
use yeeroot.Balances.Currency.Accounting.{
  transfer_across-settles, transfer_within-settles, stored, free_balance-transfer_within,
  create_if_absent-same, held-create_if_absent,
}

held-deposit_event :
    (e : Event) (s : Store)
    → (held (deposit_event e s) ≡ held s) × ((deposit_event e s).total_issuance ≡ s.total_issuance)
unfolding held deposit_event
held-deposit_event e s = (refl, refl)

pub ensure_can_withdraw-same :
    (who amount : ℕ) (reason : WithdrawReason) (new_balance : ℕ) (s : Store)
    → (ensure_can_withdraw who amount reason new_balance s).1 ≡ s
unfolding ensure_can_withdraw
ensure_can_withdraw-same who amount reason new_balance s = ground arith

module _ (encode : ℕ → List ℕ) (a b value : ℕ) (s : Store) where
  -- A transfer that does not succeed changes nothing in storage.
  pub transfer_atomic :
      (transfer encode a b value s).0 ≢ ok tt → (transfer encode a b value s).1 ≡ s
  unfolding transfer transfer_checked
  transfer_atomic = ground (
    arith,
    ensure_can_withdraw-same a value WithdrawReason.transfer
        (free_balance a s - (value + s.transfer_fee)) s,
  )

  -- To an account of this shard, whose number and count are known, a transfer keeps the total issuance
  -- equal to what the accounts hold, however it ends.
  pub transfer-settled_local :
      (n c : ℕ)
      → get_curr_shard s.sharding ≡ some n
      → get_shard_count s.sharding ≡ some c
      → shard_num_for encode b c ≡ some n
      → s.total_issuance ≡ held s
      → (transfer encode a b value s).1.total_issuance ≡ held (transfer encode a b value s).1
  unfolding transfer transfer_checked
  transfer-settled_local n c here count shard settled =
      let rest : ℕ = free_balance a s - (value + s.transfer_fee) in
      ground (
        arith,
        ensure_can_withdraw-same a value WithdrawReason.transfer rest s,
        transfer_within-settles a b value s.transfer_fee rest s,
      )

  -- A transfer to another shard that succeeds leaves the total issuance ahead of what the accounts
  -- hold by the value, which the other shard will credit.
  pub transfer-owes_abroad :
      (m n c : ℕ)
      → get_curr_shard s.sharding ≡ some n
      → get_shard_count s.sharding ≡ some c
      → shard_num_for encode b c ≡ some m
      → m ≢ n
      → s.total_issuance ≡ held s
      → (transfer encode a b value s).0 ≡ ok tt
      → (transfer encode a b value s).1.total_issuance
        ≡ held (transfer encode a b value s).1 + value
  unfolding transfer transfer_checked
  transfer-owes_abroad m n c here count shard elsewhere settled done =
      let rest : ℕ = free_balance a s - (value + s.transfer_fee) in
      ground (
        arith,
        ensure_can_withdraw-same a value WithdrawReason.transfer rest s,
        transfer_across-settles a b value s.transfer_fee rest s,
      )

  -- A transfer that succeeds between two accounts of this shard takes the value and the fee from
  -- the sender, which has them, gives the value to the receiver and changes no other free balance;
  -- a balance that ends below the existential deposit is removed.
  pub transfer_moves :
      (n c j : ℕ)
      → get_curr_shard s.sharding ≡ some n
      → get_shard_count s.sharding ≡ some c
      → shard_num_for encode b c ≡ some n
      → a ≢ b
      → (transfer encode a b value s).0 ≡ ok tt
      → (value + s.transfer_fee ≤ free_balance a s)
        × (free_balance j (transfer encode a b value s).1 ≡ (
            if j == a
            then stored s.existential_deposit (free_balance a s - (value + s.transfer_fee))
            else if j == b
            then stored s.existential_deposit (free_balance b s + value)
            else free_balance j s))
  unfolding transfer transfer_checked
  transfer_moves n c j here count shard ne done =
      let rest : ℕ = free_balance a s - (value + s.transfer_fee) in
      ground (
        arith,
        ensure_can_withdraw-same a value WithdrawReason.transfer rest s,
        free_balance-transfer_within a b value s.transfer_fee rest (free_balance b s + value) j s,
      )

-- A transfer of an account of this shard to itself changes nothing in storage, however it ends.
pub transfer_self :
    (encode : ℕ → List ℕ) (a value n c : ℕ) (s : Store)
    → get_curr_shard s.sharding ≡ some n
    → get_shard_count s.sharding ≡ some c
    → shard_num_for encode a c ≡ some n
    → (transfer encode a a value s).1 ≡ s
unfolding transfer transfer_checked
transfer_self encode a value n c s here count shard = ground (
  arith,
  ensure_can_withdraw-same a value WithdrawReason.transfer
      (free_balance a s - (value + s.transfer_fee)) s,
)

-- What a relayed transfer credits makes what the accounts hold run ahead of the total issuance by
-- the amount, if the total issuance covers the existential deposit.
pub relay_transfer-settles :
    (sender to amount : ℕ) (s : Store)
    → s.total_issuance ≡ held s
    → s.existential_deposit ≤ s.total_issuance
    → (relay_transfer sender to amount s).0 ≡ ok tt
    → (relay_transfer sender to amount s).1.total_issuance + amount
      ≡ held (relay_transfer sender to amount s).1
unfolding relay_transfer
relay_transfer-settles sender to amount s settled room done =
    let ready : Store = create_if_absent to amount s in
    let target : ℕ = free_balance to ready + amount in
    let same = create_if_absent-same to amount s in
    let credited : Store = (set_free_balance to target ready).0 in
    let small : dust ready.existential_deposit target ≤ ready.total_issuance =
      ground (arith, same) in
    let settles : credited.total_issuance + amount ≡ held credited + 0 =
      set_free_balance-settles to target ready 0 0 amount 0
        (omega (arith, held-create_if_absent to amount s, same.2)) (omega arith) small in
    ground (arith, settles, held-deposit_event (Event.transferred sender to target 0) credited)

-- A transfer to another shard and its relay there, if both succeed, keep the two shards' total
-- issuance together equal to what their accounts hold together, if each shard's was equal before and
-- the receiving shard's covers its existential deposit.
pub relay_transfer-balances :
    (encode : ℕ → List ℕ) (a b value m n c : ℕ) (s t : Store)
    → get_curr_shard s.sharding ≡ some n
    → get_shard_count s.sharding ≡ some c
    → shard_num_for encode b c ≡ some m
    → m ≢ n
    → s.total_issuance ≡ held s
    → t.total_issuance ≡ held t
    → t.existential_deposit ≤ t.total_issuance
    → (transfer encode a b value s).0 ≡ ok tt
    → (relay_transfer a b value t).0 ≡ ok tt
    → (transfer encode a b value s).1.total_issuance + (relay_transfer a b value t).1.total_issuance
      ≡ held (transfer encode a b value s).1 + held (relay_transfer a b value t).1
relay_transfer-balances encode a b value m n c s t here count shard elsewhere home away room sent
      got =
    omega (
      arith,
      transfer-owes_abroad encode a b value s m n c here count shard elsewhere home sent,
      relay_transfer-settles a b value t away room got,
    )
