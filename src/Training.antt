-- ===== src/Training.antt =====
-- deepCab/training: the training of a model, and the evaluation that promotion and the flows use.
pub mod Evaluate
pub mod Site
pub mod Trainer
pub mod Stages
pub mod Run
pub mod Splits
pub mod CrossVal
pub mod Hpo
