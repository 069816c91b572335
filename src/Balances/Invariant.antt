-- ===== src/Balances/Invariant.antt =====
-- srml/yee-balances/src/lib.rs: no stored balance is below the existential deposit.
pub mod Keeps
pub mod Steps
pub mod Reachable
