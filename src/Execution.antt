-- ===== src/Execution.antt =====
-- The paper execution layer, src/spy_der/execution and its contracts: orders, isolated paper
-- accounts, the fill simulator and reconciliation.
pub mod Contracts
pub mod Status
pub mod Accounts
pub mod Simulator
mod Tests
