-- ===== src/Risk.antt =====
-- The risk layer: src/spy_der/contracts/risk.py and src/spy_der/risk.
pub mod Contracts
pub mod Lockout
pub mod Envelope
pub mod Duplicates
pub mod Sizing
pub mod Checks
pub mod Firewall
pub mod Portfolio
mod Tests
