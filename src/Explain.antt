-- ===== src/Explain.antt =====
-- deepCab/explain: the attribution of a prediction to groups of features.
pub mod Aggregate
pub mod Cache
