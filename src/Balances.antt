-- ===== src/Balances.antt =====
-- srml/yee-balances/src/lib.rs: free and reserved balances, locks, fees and the total issuance.
pub mod State
pub mod Account
pub mod Currency
pub mod Reserve
pub mod Locks
pub mod Imbalances
pub mod Invariant
pub mod Vesting
mod Tests
