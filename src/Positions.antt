-- ===== src/Positions.antt =====
-- Paper positions, src/spy_der/positions and src/spy_der/contracts/positions.py: the state machine, the
-- manager that opens, marks, reduces and closes them, exit policies, reconciliation and restart.
pub mod Contracts
pub mod Status
pub mod Manager
pub mod Exits
mod Tests
