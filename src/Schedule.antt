-- ===== src/Schedule.antt =====
-- src/zord/schedule: the components that make a plan.
pub mod Memory
pub mod Distributed
pub mod Dynamic
pub mod Online
