-- ===== src/Training.antt =====
-- The training layer of src/spy_der/training: the folds over trading sessions.
pub mod Folds
pub mod Tests
