-- ===== src/Registry.antt =====
-- deepCab/registry: model aliases and promotion.
pub mod Alias
pub mod Promotion
pub mod Runs
