-- ===== src/Sharding.antt =====
-- Sharding: which shard an account belongs to (core/sharding/primitives/src/utils.rs) and the
-- runtime module that tracks the shard and a scale-out in progress (srml/yee-sharding/src/lib.rs).
pub mod ShardNum
pub mod ScaleOut
mod Tests
