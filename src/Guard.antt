-- ===== src/Guard.antt =====
-- The deterministic execution guard, src/spy_der/execution/guard.py: the last check between the AI's
-- decision and an executor. `Types` has the data, `Run` the guard itself.
pub mod Types
pub mod Run
pub mod Permission
pub mod Exposure
pub mod Checklist
mod Tests
