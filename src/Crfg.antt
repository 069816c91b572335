-- ===== src/Crfg.antt =====
-- Finality: the authority set, the consensus changes and the held-back messages of core/crfg, and the
-- runtime module srml/yee-crfg that signals the changes of the set.
pub mod AuthoritySet
pub mod ConsensusChanges
pub mod Authorities
pub mod UntilImported
mod Tests
