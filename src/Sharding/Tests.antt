-- ===== src/Sharding/Tests.antt =====
-- The theorems on shard numbers and on scaling out at concrete numbers.
use yeeroot.Prelude.{ℕ, ◌+◌, ◌≡◌, ◌⊎◌, refl, none, some, List, [], ◌∷◌, arith}
use yeeroot.Sharding.ShardNum.{
  shard_num_for_bytes, get_digits, log2, log2_loop, pow2, mask, low_word,
}
use yeeroot.Sharding.ShardNum.Value.{shard_num_for_bytes-double}
use yeeroot.Sharding.ScaleOut.{ShardInfo, Sharding, started, target_shard_num}
use yeeroot.Sharding.ScaleOut.Phases.{run_blocks, due, run_blocks-due, run_blocks-stuck}

abbrev address : List ℕ
address = 18 ∷ 52 ∷ 86 ∷ 120 ∷ []

address_shard : shard_num_for_bytes address 16 ≡ some 8
unfolding shard_num_for_bytes get_digits log2 log2_loop pow2 mask low_word
address_shard = refl

shard_num_for_bytes-double_example :
    (shard_num_for_bytes address (16 + 16) ≡ some 8)
    ⊎ (shard_num_for_bytes address (16 + 16) ≡ some (8 + 16))
shard_num_for_bytes-double_example =
    shard_num_for_bytes-double address 16 8 (omega arith) address_shard

abbrev splitting : ShardInfo
splitting = record { num = 1; count = 4; scale_out = some (record { shard_num = 5 }) }

abbrev quiet : ℕ → Sharding
quiet k = record {
  genesis_sharding_count = 4;
  scale_out_observe_blocks = k;
  current_shard_info = none;
  current_scale_out_phase = none;
  block_number = 99;
  logs = [];
}

run_blocks-due_example :
    (run_blocks splitting 100 30 (quiet 10)).current_scale_out_phase ≡ due splitting 100 10 30
run_blocks-due_example =
    run_blocks-due splitting 100 (record { shard_num = 5 }) (quiet 10) refl refl 30 (omega arith)
      (omega arith) (omega arith) (omega arith)

run_blocks-stuck_example :
    (run_blocks splitting 100 1000 (quiet 0)).current_scale_out_phase
    ≡ some (started 100 (target_shard_num splitting))
run_blocks-stuck_example =
    run_blocks-stuck splitting 100 (record { shard_num = 5 }) (quiet 0) refl refl 1000 refl
      (omega arith)
