-- ===== src/Sharding/ScaleOut.antt =====
-- srml/yee-sharding/src/lib.rs: the shard of the chain and the phases of a scale-out. Shard numbers
-- are `u16` and block numbers are `u64`, written out with their wrap-around.
pub mod Phases
use yeeroot.Prelude.{
  ℕ, ◌+◌, ◌%◌, ◌^◌, Bool, Option, none, some, List, [], ◌∷◌, ◌++◌, ◌==◌, if◌then◌else◌,
}

pub record ScaleOut : Type 0 where
  pub shard_num : ℕ

pub record ShardInfo : Type 0 where
  pub num : ℕ
  pub count : ℕ
  pub scale_out : Option ScaleOut

-- The fields in the source's order: `observe_util` and `shard_num`, or `shard_num` and `shard_count`.
pub data ScaleOutPhase : Type 0 where
  started native_ready ready : ℕ → ℕ → ScaleOutPhase
  commiting : ℕ → ScaleOutPhase
  committed : ℕ → ℕ → ScaleOutPhase

pub data RawLog : Type 0 where
  shard_marker : ℕ → ℕ → RawLog
  scale_out_phase : ScaleOutPhase → RawLog

-- The module's storage, with the block number and the digest of the system module.
pub record Sharding : Type 0 where
  pub genesis_sharding_count : ℕ
  pub scale_out_observe_blocks : ℕ
  pub current_shard_info : Option ShardInfo
  pub current_scale_out_phase : Option ScaleOutPhase
  pub block_number : ℕ
  pub logs : List RawLog

-- The shard that the chain keeps or moves to.
unfoldable pub target_shard_num : ShardInfo → ℕ
target_shard_num info = elim info.scale_out [ some s ↦ s.shard_num | none ↦ info.num ]

-- `block_number + scale_out_observe_blocks`
unfoldable pub observe_until : Sharding → ℕ
observe_until s = (s.block_number + s.scale_out_observe_blocks) % 2 ^ 64

-- The phase after the inherent of a block, from the phase before it.
unfoldable pub next_phase : ShardInfo → Sharding → Option ScaleOutPhase → Option ScaleOutPhase
next_phase info s none = elim info.scale_out [
  | some _ ↦ some (started (observe_until s) (target_shard_num info))
  | none ↦ none
]
next_phase info s (some (started observe_util shard_num)) =
    if observe_util == s.block_number
    then some (native_ready (observe_until s) (target_shard_num info))
    else some (started observe_util shard_num)
next_phase info s (some (native_ready observe_util shard_num)) =
    if observe_util == s.block_number
    then some (ready (observe_until s) (target_shard_num info))
    else some (native_ready observe_util shard_num)
next_phase info s (some (ready observe_util shard_num)) =
    if observe_util == s.block_number
    then some (commiting ((info.count + info.count) % 65536))
    else some (ready observe_util shard_num)
next_phase info s (some (commiting shard_count)) =
    some (committed (target_shard_num info) shard_count)
next_phase info s (some (committed shard_num shard_count)) = none

-- The call `set_shard_info`. Its first argument is the outcome of the system module's
-- `ensure_inherent(origin)`; the result says whether the call went through.
unfoldable pub set_shard_info : Bool → ShardInfo → Sharding → Bool × Sharding
set_shard_info inherent info s = (
  inherent,
  if inherent
      then record s {
        current_shard_info = some info;
        current_scale_out_phase = next_phase info s s.current_scale_out_phase;
      }
      else s,
)

unfoldable pub shard_marker_logs : Option ShardInfo → List RawLog
shard_marker_logs none = []
shard_marker_logs (some info) = shard_marker info.num info.count ∷ []

unfoldable pub phase_logs : Option ScaleOutPhase → List RawLog
phase_logs none = []
phase_logs (some phase) = scale_out_phase phase ∷ []

unfoldable pub on_finalize : Sharding → Sharding
on_finalize s = record s {
  logs = s.logs ++ (shard_marker_logs s.current_shard_info ++ phase_logs s.current_scale_out_phase);
}

-- `get_curr_shard` and `get_shard_count`: `none` is the panic of `expect` before the inherent.
unfoldable pub get_curr_shard : Sharding → Option ℕ
get_curr_shard s = elim s.current_shard_info [ some info ↦ some info.num | none ↦ none ]

unfoldable pub get_shard_count : Sharding → Option ℕ
get_shard_count s = elim s.current_shard_info [ some info ↦ some info.count | none ↦ none ]
