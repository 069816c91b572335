-- ===== src/Pow/Target.antt =====
-- core/consensus/pow/src/pow.rs: the target that a block's proof of work has to meet. Targets are
-- `U256`, block numbers and times `u64`, written out with their wrap-around.
pub mod Adjustment
use yeeroot.Prelude.{
  ℕ, ◌+◌, ◌-◌, ◌*◌, ◌/◌, ◌%◌, ◌^◌, Option, none, some, List, ltb, ◌==◌, not, if◌then◌else◌,
}
use yeeroot.Pow.Outcome.{Outcome, ok, err, panic}
use yeeroot.Pow.{Digests, Header, PowSeal, as_pow_seal, find_last}

pub record Context : Type 0 where
  pub genesis_pow_target : ℕ
  pub genesis_pow_target_adj : ℕ
  pub genesis_target_block_time : ℕ
  pub genesis_shard_count : ℕ
  pub genesis_scale_out_observe_blocks : ℕ

-- The blocks that the client has, by hash and by number on the best chain.
pub record Client (Item : Type 0) : Type 0 where
  pub header_at : ℕ → Option (Header Item)
  pub header_number : ℕ → Option (Header Item)

-- `(curr_pow_target / expected_gap).overflowing_mul(time_gap)`: a division by zero panics, and on
-- overflow the target is the genesis one.
unfoldable pub adjusted : Context → ℕ → ℕ → ℕ → Outcome ℕ
adjusted context curr_pow_target expected_gap time_gap =
    if expected_gap == 0
    then panic
    else if ltb (curr_pow_target / expected_gap * time_gap) (2 ^ 256)
    then ok (curr_pow_target / expected_gap * time_gap)
    else ok context.genesis_pow_target

unfoldable pub expected_gap : Context → ℕ
expected_gap context =
    context.genesis_target_block_time * 1000 * context.genesis_pow_target_adj % 2 ^ 64

-- From the seals of the parent and of the block `adj` blocks before.
unfoldable pub retarget : Context → Option PowSeal → Option PowSeal → ℕ → Outcome ℕ
retarget context none ancestor timestamp = panic
retarget context (some curr_seal) none timestamp = panic
retarget context (some curr_seal) (some seal) timestamp =
    if ltb timestamp seal.timestamp
    then panic
    else adjusted context curr_seal.pow_target (expected_gap context) (timestamp - seal.timestamp)

module _ {Item : Type 0} (d : Digests Item) where
  unfoldable pub header_seal : Header Item → Option PowSeal
  header_seal header = find_last (as_pow_seal d) header.logs

  unfoldable pub calc_at : Context → Client Item → ℕ → ℕ → Header Item → Outcome ℕ
  calc_at context client next_num timestamp curr_header =
      let adj = context.genesis_pow_target_adj in
      if next_num == 1
      then ok context.genesis_pow_target
      else if adj == 0
      then panic
      else if not ((next_num + 2 ^ 64 - 1) % 2 ^ 64 % adj == 0)
      then ok (elim (header_seal curr_header) [
        | some seal ↦ seal.pow_target
        | none ↦ context.genesis_pow_target
      ])
      else (elim (client.header_number ((next_num + 2 ^ 64 - adj) % 2 ^ 64)) [
        | some ancestor_header ↦
            retarget context (header_seal curr_header) (header_seal ancestor_header) timestamp
        | none ↦ panic
      ])

  unfoldable pub calc_pow_target : Context → Client Item → Header Item → ℕ → Outcome ℕ
  calc_pow_target context client header timestamp = elim (client.header_at header.parent_hash) [
    | some curr_header ↦ calc_at context client header.number timestamp curr_header
    | none ↦ panic
  ]
