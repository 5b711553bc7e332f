-- ===== src/Hardware.antt =====
-- src/hardware: what the machine reports, as far as the scheduler and the governor read it.
pub mod Pressure
pub mod Thermal
use aros_kernel.Prelude.{ℕ}
use aros_kernel.Prelude.Float.{F64}

-- src/hardware/probe.rs
pub record SystemResources : Type 0 where
  pub cpu_count : ℕ
  pub ram_total_mb : ℕ
  pub ram_available_mb : ℕ
  pub load_avg_1 : F64
  pub load_avg_5 : F64
  pub load_avg_15 : F64
