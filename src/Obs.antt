-- ===== src/Obs.antt =====
-- deepCab/obs: notifications and traces.
pub mod Notify
pub mod Tracer
