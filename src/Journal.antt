-- ===== src/Journal.antt =====
-- The append-only journal: src/spy_der/contracts/events.py and src/spy_der/journal. The hashes
-- of its contents are a parameter.
pub mod Chain
pub mod Store
pub mod Sealed
pub mod Tamper
mod Tests
