-- ===== src/Flow.antt =====
-- deepCab/flow_v2: the scheduled training flows.
pub mod Windows
pub mod Overlay
pub mod Simulate
pub mod Nightly
pub mod Retrain
pub mod Vm
pub mod Executors
