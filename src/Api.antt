-- ===== src/Api.antt =====
-- deepCab/api: the tasks and the guard of the HTTP service.
pub mod Tasks
pub mod Auth
pub mod Predictions
pub mod Lifespan
