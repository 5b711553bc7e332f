-- ===== src/Scheduler.antt =====
-- src/scheduler: what the running agents hold, and how many more may run.
pub mod Allocator
pub mod Admission
pub mod Recommender
mod Examples
