-- ===== src/Dag.antt =====
-- The task graph: src/dag/graph.rs, src/dag/runtime.rs, src/dag/executor.rs.
pub mod Graph
pub mod Runtime
pub mod Executor
pub mod Checkpoint
pub mod Sorting
mod Examples
