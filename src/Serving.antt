-- ===== src/Serving.antt =====
-- deepCab/serving: the runtimes that answer requests.
pub mod Runtime
pub mod Batcher
