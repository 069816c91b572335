-- ===== src/Pow/Verifier.antt =====
-- core/consensus/pow/src/verifier.rs: the checks of a block that a node imports.
pub mod ShardInfo
pub mod Original
pub mod Checks
pub mod Relayed
pub mod Received
use yeeroot.Prelude.{
  ℕ, zero, suc, ◌+◌, ◌-◌, ◌*◌, ◌/◌, ◌%◌, ◌^◌, ◌&&◌, ◌||◌, Bool, true, false, Option, none, some,
  List, [], ◌∷◌, ltb, leb, ◌==◌, not, if◌then◌else◌,
}
use yeeroot.Sharding.ScaleOut.{
  ScaleOut, ScaleOutPhase, started, native_ready, ready, commiting, committed,
}
use yeeroot.Pow.{
  Digests, Header, PowSeal, as_pow_seal, as_sharding_info, as_scale_out_phase, find_last,
}
use yeeroot.Pow.Outcome.{Outcome, ok, err, panic}
use yeeroot.Pow.Target.{Context, Client, calc_pow_target}
use yeeroot.Pow.Work.{Hashing, check_work_proof}

-- The shard that the node runs: its number, the number of shards and what it scales out to.
pub record ShardExtra : Type 0 where
  pub coinbase : ℕ
  pub shard_num : ℕ
  pub shard_count : ℕ
  pub scale_out : Option ScaleOut

-- `shard_num == digest_shard_num || shard_num == digest_shard_num + digest_shard_count`
unfoldable pub is_own_num : ℕ → ℕ → ℕ → Bool
is_own_num digest_num digest_count shard_num =
    (shard_num == digest_num) || (shard_num == (digest_num + digest_count) % 65536)

-- The numbers of the header that is checked: its own number, the blocks to observe, and the shard
-- number and count of its digest.
pub record Numbers : Type 0 where
  pub number : ℕ
  pub observe_blocks : ℕ
  pub num : ℕ
  pub count : ℕ

-- A phase that the parent was in already, and a phase that begins with this block.
unfoldable pub goes_on : Numbers → ℕ → ℕ → ℕ → Bool
goes_on n p_observe_util observe_util shard_num =
    (p_observe_util == observe_util)
    && (is_own_num n.num n.count shard_num && ltb n.number observe_util)

unfoldable pub begins : Numbers → ℕ → ℕ → ℕ → Bool
begins n p_observe_util observe_util shard_num =
    (p_observe_util == n.number)
    && (is_own_num n.num n.count shard_num
        && ((n.number + n.observe_blocks) % 2 ^ 64 == observe_util))

unfoldable pub starts : Numbers → ℕ → ℕ → Bool
starts n observe_util shard_num =
    (observe_util == (n.number + n.observe_blocks) % 2 ^ 64) && is_own_num n.num n.count shard_num

-- The parent's phase, and the block's.
unfoldable pub phase_ok : Numbers → Option ScaleOutPhase → Option ScaleOutPhase → Bool
phase_ok n (some (started p_until p_num)) (some (started until num)) = goes_on n p_until until num
phase_ok n (some (started p_until p_num)) (some (native_ready until num)) =
    begins n p_until until num
phase_ok n (some (started p_until p_num)) none = true
phase_ok n (some (started p_until p_num)) _ = false
phase_ok n (some (native_ready p_until p_num)) (some (native_ready until num)) =
    goes_on n p_until until num
phase_ok n (some (native_ready p_until p_num)) (some (ready until num)) = begins n p_until until num
phase_ok n (some (native_ready p_until p_num)) none = true
phase_ok n (some (native_ready p_until p_num)) _ = false
phase_ok n (some (ready p_until p_num)) (some (ready until num)) = goes_on n p_until until num
phase_ok n (some (ready p_until p_num)) (some (commiting count)) =
    (p_until == n.number) && (count == n.count * 2 % 65536)
phase_ok n (some (ready p_until p_num)) _ = false
phase_ok n (some (commiting p_count)) (some (committed num count)) =
    (num == n.num) && ((count == p_count) && (n.count == count))
phase_ok n (some (commiting p_count)) _ = false
phase_ok n (some (committed p_num p_count)) (some (started until num)) = starts n until num
phase_ok n (some (committed p_num p_count)) none = true
phase_ok n (some (committed p_num p_count)) _ = false
phase_ok n none (some (started until num)) = starts n until num
phase_ok n none none = true
phase_ok n none _ = false

-- `get_original_shard_num`: the loop halves the count while it is above the original one, with the
-- rounds that are left; a `u16` has sixteen digits.
unfoldable pub original_loop : ℕ → ℕ → ℕ → ℕ → ℕ × ℕ
original_loop zero original_count shard_num shard_count = (shard_num, shard_count)
original_loop (suc rounds) original_count shard_num shard_count =
    let half : ℕ = shard_count / 2 in
    let rest =
      original_loop rounds original_count
        (if leb half shard_num then shard_num - half else shard_num) half in
    if ltb original_count shard_count then rest else (shard_num, shard_count)

unfoldable pub get_original_shard_num : ℕ → ℕ → ℕ → Outcome ℕ
get_original_shard_num shard_num shard_count original_shard_count =
    let found = original_loop 16 original_shard_count shard_num shard_count in
    if found.1 == original_shard_count then ok found.0 else err

-- What a failed check asks of the running service.
pub data Trigger : Type 0 where
  stop restart : Trigger

unfoldable pub own_target : ShardExtra → ℕ
own_target extra = elim extra.scale_out [ some s ↦ s.shard_num | none ↦ extra.shard_num ]

-- `check_scale`, with `shard_num_for` of the coinbase; what the service is asked to do, if anything.
unfoldable pub check_scale :
    (ℕ → ℕ → Option ℕ) → ShardExtra → Option ScaleOutPhase → Outcome (Unit {0}) × Option Trigger
check_scale shard_num_for extra (some (committed num scale_shard_count)) =
    if extra.shard_count == scale_shard_count
    then (ok tt, none)
    else (elim (shard_num_for extra.coinbase scale_shard_count) [
      | some coinbase_shard_num ↦
          if own_target extra == coinbase_shard_num then (err, some restart) else (err, some stop)
      | none ↦ (panic, none)
    ])
check_scale shard_num_for extra _ = (ok tt, none)
