-- ===== src/Models.antt =====
-- deepCab/models: prediction intervals.
pub mod Conformal
