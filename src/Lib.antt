-- ===== src/Lib.antt =====
-- YeeChain (yeeroot): a sharded proof-of-work chain. Each shard is a chain of its own with the same
-- runtime; an account belongs to the shard that its encoding says. A transfer to an account of
-- another shard debits the sender in its own shard and is relayed to the other, which credits it.
--
-- The parts and the files that model them:
--   Prelude, Storage: shared names, lists on native numbers, and a storage map as the list of its
--     entries, in which a removed entry stays as `none`.
--   Sharding.ShardNum: core/sharding/primitives/src/utils.rs, `shard_num_for` and its helpers.
--   Sharding.ScaleOut: srml/yee-sharding/src/lib.rs, the phases of a scale-out, one inherent a block.
--   Balances: srml/yee-balances/src/lib.rs. State is the storage, the errors and the outcomes; Account
--     sets balances and reaps accounts; Currency, Reserve and Locks are the implementations of the
--     three currency traits, with `make_payment` and `relay_transfer`; Imbalances is the module of
--     that name; Locks.Lasting follows a lock over later blocks; Vesting is the genesis configuration of schedules; Invariant has every operation as
--     a step.
--   Rewards: srml/yee-pow/src/lib.rs, reward plans paid through the balances module. Schedule is about
--     when, Payments and Supply about what they pay.
--   Assets: srml/yee-assets/src/lib.rs, issues, transfers and relayed transfers of assets.
--   Relay: core/sr-primitives/src/lib.rs, reading a relayed extrinsic and what it relays from bytes, over
--     the codec's readers.
--   RelayCall: srml/yee-relay/src/lib.rs, the call that hands a relayed extrinsic to one of the two.
--   Executive: srml/yee-executive/src/lib.rs, applying extrinsics and checking those of the pool, over
--     an interface of the system module and its laws, with Relay for relayed extrinsics. Sealed is
--     `execute_block`, which rebuilds the proof of what the block sends.
--   Crfg: core/crfg/src/authorities.rs (AuthoritySet), core/crfg/src/consensus_changes.rs
--     (ConsensusChanges), srml/yee-crfg/src/lib.rs (Authorities) and core/crfg/src/until_imported.rs
--     (UntilImported: commits with the countdown of their waits, and the stream of votes).
--   Merkle: core/util/merkle/src/lib.rs, the Merkle proofs of what a block sends to each shard.
--   Pow: core/consensus/pow/src (pow.rs, digest.rs, verifier.rs), core/sharding/src/lib.rs and
--     core/context/src/lib.rs. Pow is the seal and the digest items; Outcome the results of the
--     node's calls; Compact the compact Merkle proof of a header; Target `calc_pow_target`; Work
--     `check_work_proof`; Outgoing `gen_extrinsic_proof`; Verifier and its Checks `verify` with all
--     the checks of an imported block, with Relayed and Received for what another shard sent.
-- Each module's Tests apply the theorems to concrete inputs.
--
-- State is passed explicitly: a call takes the storage and returns it with its outcome, after an error
-- too, so that what was written before the error stays written. Balances are `u128`, block numbers
-- `u64` and shard numbers `u16`, native numbers with the wrap-around written out. The runtime's choices
-- of handlers are built in: dust, transfer fees and transaction fees are dropped imbalances, whose
-- amounts `on_fee_withdrawn` adds to the block's total fee. A failed `expect` is an outcome of its own.
-- The loops of `log2` and of `get_original_shard_num` have sixteen rounds, as many as a `u16` has
-- digits; the loop over the
-- indices that an extrinsic requires has as many rounds as indices are missing; all others recur on
-- lists.
--
-- Parameters: the codec's encoding of an account and its readers, the lookup of an address, the
-- fork tree, the client's headers and canonical hashes, the system module and the dispatch, the hash
-- functions, the trees of the crate merkle_light and the stored proofs of other shards' blocks.
-- Not modelled: the miner's job manager and worker, the rest of the finality voter, the networks, the switch, RPC,
-- the command line and the node's assembly, which are peer-to-peer and client I/O for the most part,
-- and the copies of finality-grandpa and of substrate's libp2p.
pub mod Prelude
pub mod Storage
pub mod Sharding
pub mod Balances
pub mod Assets
pub mod Rewards
pub mod Crfg
pub mod Executive
pub mod Relay
pub mod RelayCall
pub mod Pow
pub mod Merkle
