-- ===== src/Runtime.antt =====
-- src/zord/runtime: what runs during an epoch.
pub mod BufferPool
pub mod ControlLoop
pub mod Watermark
pub mod FeatureRecombine
