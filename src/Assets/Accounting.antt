-- ===== src/Assets/Accounting.antt =====
-- srml/yee-assets/src/lib.rs: what issues, transfers and relays do to balances and to their sum.
use yeeroot.Prelude.{
  ℕ, ◌+◌, ◌-◌, ◌%◌, ◌≤◌, ◌<◌, ◌≡◌, ◌≢◌, List, Option, none, some, arith, ◌==◌, if◌then◌else◌,
  length, refl, or_default, length,
}
use yeeroot.Storage.{ℕ_key, lookup, total, total-write, lookup-le-total, lookup-write}
use yeeroot.Sharding.ShardNum.{shard_num_for}
use yeeroot.Sharding.ScaleOut.{get_curr_shard, get_shard_count}
use yeeroot.Assets.Keys.{Holding, holding, Holding_key, holding_eq, holding_eq_iff}
use yeeroot.Prelude.{Option-cases, inl, inr}
use yeeroot.Relay.{assets, Codec, OriginExtrinsic, decode_origin, read_asset}
use yeeroot.Assets.{
  amount_mod, Assets, done, failed, unknown_target, balance_of, credit, debit, note_transfer,
  arrive, transfer, credit_relayed, relay_transfer, issue, issue_asset, shard_code_of,
}

balance_of-le-total : (h : Holding) (s : Assets) → balance_of h s ≤ total s.balances
unfolding balance_of
balance_of-le-total h s = lookup-le-total h s.balances

pub total-debit :
    (h : Holding) (amount : ℕ) (s : Assets)
    → amount ≤ balance_of h s
    → total (debit h amount s).balances + amount ≡ total s.balances
unfolding debit balance_of
total-debit h amount s enough =
    omega (arith, total-write h (some (or_default 0 (lookup h s.balances) - amount)) s.balances)

pub total-credit :
    (h : Holding) (amount : ℕ) (s : Assets)
    → balance_of h s + amount < amount_mod
    → total (credit h amount s).balances ≡ total s.balances + amount
unfolding credit balance_of
total-credit h amount s fits = ground (
  arith,
  total-write h (some ((or_default 0 (lookup h s.balances) + amount) % amount_mod)) s.balances,
)

pub balance_of-debit :
    (h k : Holding) (amount : ℕ) (s : Assets)
    → balance_of k (debit h amount s)
      ≡ (if holding_eq k h then balance_of h s - amount else balance_of k s)
unfolding balance_of debit
balance_of-debit h k amount s =
    ground (arith, lookup-write h k (some (or_default 0 (lookup h s.balances) - amount)) s.balances)

pub balance_of-credit :
    (h k : Holding) (amount : ℕ) (s : Assets)
    → balance_of k (credit h amount s)
      ≡ (if holding_eq k h then (balance_of h s + amount) % amount_mod else balance_of k s)
unfolding balance_of credit
balance_of-credit h k amount s = ground (
  arith,
  lookup-write h k (some ((or_default 0 (lookup h s.balances) + amount) % amount_mod)) s.balances,
)

note_transfer-balances :
    (code : List ℕ) (id a b amount : ℕ) (s : Assets)
    → (note_transfer code id a b amount s).balances ≡ s.balances
unfolding note_transfer
note_transfer-balances code id a b amount s = refl

balance_of-note_transfer :
    (code : List ℕ) (id a b amount : ℕ) (k : Holding) (s : Assets)
    → balance_of k (note_transfer code id a b amount s) ≡ balance_of k s
unfolding note_transfer balance_of
balance_of-note_transfer code id a b amount k s = refl

-- A debit and a credit of the same amount.
moved_total :
    (h k : Holding) (amount : ℕ) (s : Assets)
    → amount ≤ balance_of h s
    → total s.balances < amount_mod
    → total (credit k amount (debit h amount s)).balances ≡ total s.balances
moved_total h k amount s enough fits =
    let less = total-debit h amount s enough in
    let small : balance_of k (debit h amount s) + amount < amount_mod =
      omega (arith, less, balance_of-le-total k (debit h amount s)) in
    omega (arith, less, total-credit k amount (debit h amount s) small)

module _ (encode : ℕ → List ℕ) (resolve : ℕ → Option ℕ) (code : List ℕ) (id a target b amount : ℕ)
    (s : Assets) where
  -- Within a shard a transfer of an asset keeps the sum of all balances, however it ends, if the
  -- sum fits in a balance and the target resolves.
  pub transfer-total :
      (n c : ℕ)
      → get_curr_shard s.sharding ≡ some n
      → get_shard_count s.sharding ≡ some c
      → shard_num_for encode b c ≡ some n
      → resolve target ≡ some b
      → total s.balances < amount_mod
      → total (transfer encode resolve code id a target amount s).1.balances ≡ total s.balances
  unfolding transfer arrive
  transfer-total n c here count shard known fits =
      let mine : Holding = holding code id a in
      let paid : Assets = debit mine amount s in
      ground (
        arith,
        moved_total mine (holding code id b) amount s,
        note_transfer-balances code id a b amount (credit (holding code id b) amount paid),
      )

  -- A transfer of an asset to another account of this shard that succeeds takes a positive amount
  -- from the sender, which has it, adds it to the receiver's balance and changes no other balance.
  pub transfer_exact :
      (n c : ℕ) (k : Holding)
      → get_curr_shard s.sharding ≡ some n
      → get_shard_count s.sharding ≡ some c
      → shard_num_for encode b c ≡ some n
      → resolve target ≡ some b
      → a ≢ b
      → total s.balances < amount_mod
      → (transfer encode resolve code id a target amount s).0 ≡ done
      → (0 < amount)
        × (amount ≤ balance_of (holding code id a) s)
        × (balance_of k (transfer encode resolve code id a target amount s).1 ≡ (
            if holding_eq k (holding code id b)
            then balance_of k s + amount
            else if holding_eq k (holding code id a)
            then balance_of k s - amount
            else balance_of k s))
  unfolding transfer arrive
  transfer_exact n c k here count shard known ne fits ok =
      let mine : Holding = holding code id a in
      let theirs : Holding = holding code id b in
      let paid : Assets = debit mine amount s in
      ground (
        arith,
        balance_of-note_transfer code id a b amount k (credit theirs amount paid),
        balance_of-credit theirs k amount paid,
        balance_of-debit mine k amount s,
        balance_of-debit mine theirs amount s,
        holding_eq_iff k theirs,
        holding_eq_iff k mine,
        holding_eq_iff theirs mine,
        balance_of-le-total theirs paid,
        total-debit mine amount s,
      )

  -- A transfer to another shard that succeeds lowers the sum of this shard's balances by the amount.
  pub transfer_leaves :
      (m n c : ℕ)
      → get_curr_shard s.sharding ≡ some n
      → get_shard_count s.sharding ≡ some c
      → shard_num_for encode b c ≡ some m
      → m ≢ n
      → resolve target ≡ some b
      → (transfer encode resolve code id a target amount s).0 ≡ done
      → total (transfer encode resolve code id a target amount s).1.balances + amount
        ≡ total s.balances
  unfolding transfer arrive
  transfer_leaves m n c here count shard elsewhere known ok =
      let mine : Holding = holding code id a in
      let paid : Assets = debit mine amount s in
      ground (arith, total-debit mine amount s, note_transfer-balances code id a b amount paid)

-- If the target of a transfer does not resolve, the call fails when the amount is already gone from
-- the sender: nobody gets it, and the sum of all balances is lower by it.
pub transfer_loses :
    (encode : ℕ → List ℕ) (resolve : ℕ → Option ℕ) (code : List ℕ) (id a target amount : ℕ)
    (s : Assets)
    → resolve target ≡ none
    → 0 < amount
    → amount ≤ balance_of (holding code id a) s
    → let (r, s') = transfer encode resolve code id a target amount s in
      (r ≡ failed unknown_target) × (total s'.balances + amount ≡ total s.balances)
unfolding transfer
transfer_loses encode resolve code id a target amount s unknown pos enough =
    ground (arith, total-debit (holding code id a) amount s enough)

-- An extrinsic that is read as one of assets has an id, so that a relay never fails to unwrap it.
pub decode_origin-id :
    (codec : Codec) (input : List ℕ) (tx : OriginExtrinsic)
    → decode_origin codec assets input ≡ some tx
    → (id : ℕ) × (tx.id ≡ some id)
unfolding decode_origin read_asset
decode_origin-id codec input tx h = elim (Option-cases tx.id) [
  | inl e ↦ absurd (ground (arith, e))
  | inr found ↦ found
]

pub relay_transfer-total :
    (codec : Codec) (input : List ℕ) (tx : OriginExtrinsic) (s : Assets)
    → decode_origin codec assets input ≡ some tx
    → total s.balances + tx.amount < amount_mod
    → total (relay_transfer codec input s).1.balances ≡ total s.balances + tx.amount
unfolding relay_transfer credit_relayed
relay_transfer-total codec input tx s known fits =
    let (id, e) = decode_origin-id codec input tx known in
    let theirs : Holding = holding tx.shard id tx.dest in
    ground (
      arith,
      e,
      balance_of-le-total theirs s,
      total-credit theirs tx.amount s,
      note_transfer-balances tx.shard id tx.sender tx.dest tx.amount (credit theirs tx.amount s),
    )

-- A transfer of an asset to another shard and the relay of it there keep the sum of both shards'
-- balances, if what is relayed is the amount that was sent and the other shard's sum can take it.
pub relay_transfer-conserves :
    (encode : ℕ → List ℕ) (resolve : ℕ → Option ℕ) (code : List ℕ) (id a target b amount m n c : ℕ)
    (codec : Codec) (input : List ℕ) (tx : OriginExtrinsic) (s t : Assets)
    → get_curr_shard s.sharding ≡ some n
    → get_shard_count s.sharding ≡ some c
    → shard_num_for encode b c ≡ some m
    → m ≢ n
    → resolve target ≡ some b
    → (transfer encode resolve code id a target amount s).0 ≡ done
    → decode_origin codec assets input ≡ some tx
    → tx.amount ≡ amount
    → total t.balances + amount < amount_mod
    → total (transfer encode resolve code id a target amount s).1.balances
        + total (relay_transfer codec input t).1.balances
      ≡ total s.balances + total t.balances
relay_transfer-conserves encode resolve code id a target b amount m n c codec input tx s t here
      count shard elsewhere known ok decoded same fits =
    let sent =
      transfer_leaves encode resolve code id a target b amount s m n c here count shard elsewhere
        known ok in
    let got = relay_transfer-total codec input tx t decoded (omega (arith, same)) in
    omega (arith, sent, got, same)

-- An issue of an asset with a name that is not too long records its supply, name, decimals and
-- issuer under the next id, gives the issuer the whole supply, and leaves every other asset as it
-- was.
pub issue_records :
    (encode : ℕ → List ℕ) (origin : ℕ) (name : List ℕ) (supply decimals j : ℕ) (h : Holding)
    (s : Assets)
    → length name ≤ 16
    → h ≢ holding (shard_code_of encode origin) s.next_asset_id origin
    → let s' = (issue encode origin name supply decimals s).1 in
      let mine = holding (shard_code_of encode origin) s.next_asset_id origin in
      (balance_of mine s' ≡ supply)
      × (balance_of h s' ≡ balance_of h s)
      × (lookup j s'.total_supply
          ≡ (if j == s.next_asset_id then some supply else lookup j s.total_supply))
      × (lookup j s'.assets_name
          ≡ (if j == s.next_asset_id then some name else lookup j s.assets_name))
      × (lookup j s'.assets_decimals
          ≡ (if j == s.next_asset_id then some decimals else lookup j s.assets_decimals))
      × (lookup j s'.assets_issuer
          ≡ (if j == s.next_asset_id then some origin else lookup j s.assets_issuer))
unfolding issue issue_asset balance_of
issue_records encode origin name supply decimals j h s short other =
    let id : ℕ = s.next_asset_id in
    let mine : Holding = holding (shard_code_of encode origin) id origin in
    ground (
      arith,
      holding_eq_iff h mine,
      holding_eq_iff mine mine,
      lookup-write mine mine (some supply) s.balances,
      lookup-write mine h (some supply) s.balances,
      lookup-write id j (some supply) s.total_supply,
      lookup-write id j (some name) s.assets_name,
      lookup-write id j (some decimals) s.assets_decimals,
      lookup-write id j (some origin) s.assets_issuer,
    )
