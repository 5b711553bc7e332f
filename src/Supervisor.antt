-- ===== src/Supervisor.antt =====
-- src/supervisor: the processes that the kernel watches and restarts.
pub mod Process
pub mod Health
pub mod Kernel
pub mod Tasks
pub mod Triggers
mod Examples
