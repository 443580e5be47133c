-- ===== src/Datasets.antt =====
-- src/zord/datasets and src/zord/storage: the temporal graph and its stores.
pub mod Numpy
pub mod Unique
pub mod TemporalGraph
pub mod Argpartition
