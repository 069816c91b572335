-- ===== src/Sharding/ScaleOut/Phases.antt =====
-- The time line of a scale-out, block by block.
use yeeroot.Prelude.{
  ℕ, zero, suc, ◌+◌, ◌*◌, ◌^◌, ◌<◌, ◌≡◌, ◌∙◌, refl, ap, Option, none, some, true, arith, ltb, ◌==◌,
  if◌then◌else◌,
}
use yeeroot.Sharding.ScaleOut.{
  ScaleOut, ShardInfo, ScaleOutPhase, started, native_ready, ready, commiting, committed, Sharding,
  target_shard_num, observe_until, next_phase, set_shard_info,
}

-- The inherent of one block, at the block's number.
unfoldable pub block_inherent : ShardInfo → ℕ → Sharding → Sharding
block_inherent info n s = (set_shard_info true info (record s { block_number = n })).1

-- The inherents of block `n` and of the `t` blocks that follow it.
unfoldable pub run_blocks : ShardInfo → ℕ → ℕ → Sharding → Sharding
run_blocks info n zero s = block_inherent info n s
run_blocks info n (suc t) s = block_inherent info (n + suc t) (run_blocks info n t s)

-- The phase that is due `t` blocks after block `n` requested the scale-out, if each phase is
-- observed for `k` blocks.
abbrev pub due : ShardInfo → ℕ → ℕ → ℕ → Option ScaleOutPhase
due info n k t =
    let target = target_shard_num info in
    if ltb t k
    then some (started (n + k) target)
    else if ltb t (2 * k)
    then some (native_ready (n + 2 * k) target)
    else if ltb t (3 * k)
    then some (ready (n + 3 * k) target)
    else if t == 3 * k
    then some (commiting (info.count + info.count))
    else if t == 3 * k + 1
    then some (committed target (info.count + info.count))
    else none

run_blocks-observe :
    (info : ShardInfo) (n t : ℕ) (s : Sharding)
    → (run_blocks info n t s).scale_out_observe_blocks ≡ s.scale_out_observe_blocks
unfolding run_blocks block_inherent set_shard_info
run_blocks-observe info n zero s = ground arith
run_blocks-observe info n (suc t) s = ground (arith, run_blocks-observe info n t s)

run_blocks-next :
    (info : ShardInfo) (n t : ℕ) (s : Sharding)
    → (run_blocks info n (suc t) s).current_scale_out_phase
      ≡ next_phase info
          (record (run_blocks info n t s) { block_number = n + suc t })
          (run_blocks info n t s).current_scale_out_phase
unfolding run_blocks block_inherent set_shard_info
run_blocks-next info n t s = refl

observe_until-eq :
    (m : ℕ) (s : Sharding)
    → m + s.scale_out_observe_blocks < 2 ^ 64
    → observe_until (record s { block_number = m }) ≡ m + s.scale_out_observe_blocks
unfolding observe_until
observe_until-eq m s h = omega arith

-- One block's inherent takes the phase that was due to the one that is due next.
next_phase-due :
    (info : ShardInfo) (n k t : ℕ) (s : Sharding)
    → observe_until s ≡ n + suc t + k
    → s.block_number ≡ n + suc t
    → 0 < k
    → info.count < 32768
    → t < 3 * k + 2
    → next_phase info s (due info n k t) ≡ due info n k (suc t)
unfolding next_phase
next_phase-due info n k t s h b pos count lt = ground arith

first_phase :
    (info : ShardInfo) (n : ℕ) (target : ScaleOut) (s : Sharding)
    → info.scale_out ≡ some target
    → s.current_scale_out_phase ≡ none
    → (run_blocks info n zero s).current_scale_out_phase
      ≡ some (started (observe_until (record s { block_number = n })) (target_shard_num info))
unfolding run_blocks block_inherent set_shard_info next_phase
first_phase info n target s req idle = ground arith

module _ (info : ShardInfo) (n : ℕ) (target : ScaleOut) (s : Sharding)
    (requested : info.scale_out ≡ some target) (idle : s.current_scale_out_phase ≡ none) where
  -- A chain that is not scaling out and whose inherents request it from block `n` on is in the
  -- phase that is due `t` blocks later, for `t` below 3 * k + 3: three phases are observed for `k`
  -- blocks each, `k` above 0, then the doubled number of shards is committed and the scale-out is
  -- over. The block numbers and the doubled number of shards are assumed to fit their types.
  pub run_blocks-due :
      (t : ℕ)
      → 0 < s.scale_out_observe_blocks
      → n + 4 * s.scale_out_observe_blocks + 3 < 2 ^ 64
      → info.count < 32768
      → t < 3 * s.scale_out_observe_blocks + 3
      → (run_blocks info n t s).current_scale_out_phase ≡ due info n s.scale_out_observe_blocks t
  run_blocks-due zero pos fits count lt =
      first_phase info n target s requested idle
      ∙ ground (arith, observe_until-eq n s (omega arith))
  run_blocks-due (suc t) pos fits count lt =
      let before : Sharding = record (run_blocks info n t s) { block_number = n + suc t } in
      let kept = run_blocks-observe info n t s in
      let until : observe_until before ≡ n + suc t + s.scale_out_observe_blocks =
        observe_until-eq (n + suc t) (run_blocks info n t s) (omega (arith, kept))
        ∙ omega (arith, kept) in
      run_blocks-next info n t s
      ∙ ap (next_phase info before) (run_blocks-due t pos fits count (omega arith))
      ∙ next_phase-due info n s.scale_out_observe_blocks t before until refl pos count (omega arith)

  -- With no blocks to observe, a requested scale-out never leaves its first phase, at any block
  -- whose number fits a `u64`.
  pub run_blocks-stuck :
      (t : ℕ)
      → s.scale_out_observe_blocks ≡ 0
      → n + t < 2 ^ 64
      → (run_blocks info n t s).current_scale_out_phase ≡ some (started n (target_shard_num info))
  run_blocks-stuck zero none_observed fits =
      first_phase info n target s requested idle
      ∙ ground (arith, observe_until-eq n s (omega arith))
  run_blocks-stuck (suc t) none_observed fits =
      run_blocks-next info n t s
      ∙ rw (run_blocks-stuck t none_observed (omega arith)) (unfold next_phase in ground arith)
