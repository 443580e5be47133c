-- ===== src/Partition.antt =====
-- src/zord/partition: the assignment of nodes to devices.
pub mod Hetero
pub mod Cost
pub mod Allocate
pub mod AttrCost
pub mod FeatureParallel
