-- ===== src/Tests.antt =====
-- Tests of the definitions, and the theorems at concrete inputs.
pub mod Settlement
pub mod Values
pub mod Wallets
pub mod Resolving
pub mod Orders
pub mod Simulation
pub mod Run
pub mod Accounts
pub mod Books
