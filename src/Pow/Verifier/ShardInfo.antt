-- ===== src/Pow/Verifier/ShardInfo.antt =====
-- The phases of a scale-out that the verifier accepts, against those that the runtime makes.
use yeeroot.Prelude.{
  ℕ, zero, suc, ◌+◌, ◌*◌, ◌^◌, ◌<◌, ◌≤◌, ◌≡◌, refl, true, Option, none, some, arith,
}
use yeeroot.Sharding.ScaleOut.{
  ScaleOut, ShardInfo, ScaleOutPhase, started, native_ready, ready, commiting, committed, Sharding,
  target_shard_num, observe_until, next_phase,
}
use yeeroot.Sharding.ScaleOut.Phases.{run_blocks, due, run_blocks-due}
use yeeroot.Pow.Verifier.{Numbers, is_own_num, goes_on, begins, starts, phase_ok}

-- The numbers of a block from the runtime's state in it and the shard information it was given.
abbrev pub numbers_of : ShardInfo → Sharding → Numbers
numbers_of info s = record {
  number = s.block_number;
  observe_blocks = s.scale_out_observe_blocks;
  num = info.num;
  count = info.count;
}

-- What ties the phase before a block to the block's shard information: a phase that is observed is
-- not over before this block and is about the chain's own shard, and a chain that commits has moved
-- to its new shard.
unfoldable pub Tracks : ShardInfo → Sharding → Option ScaleOutPhase → Type 0
Tracks info s none = is_own_num info.num info.count (target_shard_num info) ≡ true
Tracks info s (some (started until num)) =
    (s.block_number ≤ until)
    × (is_own_num info.num info.count num ≡ true)
    × (is_own_num info.num info.count (target_shard_num info) ≡ true)
Tracks info s (some (native_ready until num)) =
    (s.block_number ≤ until)
    × (is_own_num info.num info.count num ≡ true)
    × (is_own_num info.num info.count (target_shard_num info) ≡ true)
Tracks info s (some (ready until num)) =
    (s.block_number ≤ until)
    × (is_own_num info.num info.count num ≡ true)
    × (is_own_num info.num info.count (target_shard_num info) ≡ true)
Tracks info s (some (commiting count)) = (info.count ≡ count) × (target_shard_num info ≡ info.num)
Tracks info s (some (committed num count)) =
    is_own_num info.num info.count (target_shard_num info) ≡ true

-- The runtime refines the verifier: from a phase that fits the block's shard information, the phase
-- that the runtime's inherent makes is one that the verifier accepts in the block after it.
pub phase_ok-next_phase :
    (info : ShardInfo) (s : Sharding) (phase : Option ScaleOutPhase)
    → Tracks info s phase
    → phase_ok (numbers_of info s) phase (next_phase info s phase) ≡ true
unfolding phase_ok next_phase Tracks goes_on begins starts observe_until
phase_ok-next_phase info s none t = started_or_none info.scale_out t
  where
    started_or_none :
        (o : Option ScaleOut)
        → is_own_num info.num info.count (target_shard_num info) ≡ true
        → phase_ok (numbers_of info s) none (elim o [
          | some _ ↦ some (started (observe_until s) (target_shard_num info))
          | none ↦ none
        ])
          ≡ true
    started_or_none none own = refl
    started_or_none (some target) own = ground arith
phase_ok-next_phase info s (some (started until num)) t = ground arith
phase_ok-next_phase info s (some (native_ready until num)) t = ground arith
phase_ok-next_phase info s (some (ready until num)) t = ground arith
phase_ok-next_phase info s (some (commiting count)) t = ground arith
phase_ok-next_phase info s (some (committed num count)) t = refl

own_of :
    (info : ShardInfo) (target : ScaleOut)
    → info.scale_out ≡ some target
    → is_own_num info.num info.count target.shard_num ≡ true
    → is_own_num info.num info.count (target_shard_num info) ≡ true
unfolding target_shard_num
own_of info target requested own = rw requested own

accepted_step :
    (info : ShardInfo) (n k t : ℕ)
    → is_own_num info.num info.count (target_shard_num info) ≡ true
    → n + 4 * k + 3 < 2 ^ 64
    → info.count < 32768
    → t < 3 * k
    → phase_ok
        (record { number = n + suc t; observe_blocks = k; num = info.num; count = info.count })
        (due info n k t)
        (due info n k (suc t))
      ≡ true
unfolding phase_ok goes_on begins starts
accepted_step info n k t own fits count lt = ground arith

-- The phase in block `n` as the block before has it, and so for the `t` blocks that follow block `n`.
abbrev pub phase_before : ShardInfo → ℕ → ℕ → Sharding → Option ScaleOutPhase
phase_before info n zero s = s.current_scale_out_phase
phase_before info n (suc t) s = (run_blocks info n t s).current_scale_out_phase

accepted_first :
    (info : ShardInfo) (n k : ℕ)
    → 0 < k
    → is_own_num info.num info.count (target_shard_num info) ≡ true
    → n + k < 2 ^ 64
    → phase_ok
        (record { number = n + 0; observe_blocks = k; num = info.num; count = info.count })
        none
        (due info n k 0)
      ≡ true
unfolding phase_ok starts
accepted_first info n k pos own fits = ground arith

-- A chain that is in no phase and requests a scale-out of its own shard from block `n` on makes a
-- phase in every block, from block `n` to the commit `3 * k` blocks later, that the verifier accepts,
-- with the phase of the block before it. Each phase is observed for `k` blocks, `k` above 0, and the
-- block numbers and the doubled number of shards fit their types.
pub phase_ok-run_blocks :
    (info : ShardInfo) (n : ℕ) (target : ScaleOut) (s : Sharding) (t : ℕ)
    → info.scale_out ≡ some target
    → s.current_scale_out_phase ≡ none
    → is_own_num info.num info.count target.shard_num ≡ true
    → 0 < s.scale_out_observe_blocks
    → n + 4 * s.scale_out_observe_blocks + 3 < 2 ^ 64
    → info.count < 32768
    → t ≤ 3 * s.scale_out_observe_blocks
    → phase_ok
        (record {
          number = n + t;
          observe_blocks = s.scale_out_observe_blocks;
          num = info.num;
          count = info.count;
        })
        (phase_before info n t s)
        (run_blocks info n t s).current_scale_out_phase
      ≡ true
phase_ok-run_blocks info n target s zero requested idle own pos fits count le =
    let k = s.scale_out_observe_blocks in
    let after = run_blocks-due info n target s requested idle 0 pos fits count (omega arith) in
    let mine = own_of info target requested own in
    rw (after, idle) (accepted_first info n k pos mine (omega arith))
phase_ok-run_blocks info n target s (suc t) requested idle own pos fits count le =
    let k = s.scale_out_observe_blocks in
    let before = run_blocks-due info n target s requested idle t pos fits count (omega arith) in
    let after =
      run_blocks-due info n target s requested idle (suc t) pos fits count (omega arith) in
    let mine = own_of info target requested own in
    rw (before, after) (accepted_step info n k t mine fits count (omega arith))
