-- ===== src/Scheduler/Recommender.antt =====
-- src/scheduler/recommender.rs: how many agents a machine can run. The summary that
-- `recommend_config` prints is not modelled.
pub mod Fit
use aros_kernel.Prelude.{ℕ, ◌-◌, ◌*◌, ◌/◌, ◌%◌, false, min, if◌then◌else◌, ltb, u32_max}
use aros_kernel.Prelude.Float.{F64, finite, of_u64, mul, to_u32, round53}
use aros_kernel.Hardware.{SystemResources}
use aros_kernel.Hardware.Pressure.{MemoryPressureLevel, normal, warn, critical}
use aros_kernel.Hardware.Thermal.{ThermalPressureLevel, nominal, fair, serious}
use aros_kernel.Hardware.Thermal as Thermal

pub record Recommender : Type 0 where
  pub ram_headroom_base_mb : ℕ
  pub max_agents_hard_limit : ℕ

abbrev pub with_defaults : Recommender
with_defaults = record { ram_headroom_base_mb = 2048; max_agents_hard_limit = 0 }

-- 1.0, 1.75 and 2.5.
abbrev pub headroom_multiplier : MemoryPressureLevel → F64
headroom_multiplier normal = finite false 1 0
headroom_multiplier warn = finite false 7 2
headroom_multiplier critical = finite false 5 1

unfoldable pub dynamic_headroom : Recommender → MemoryPressureLevel → ℕ
unfolding mul to_u32 round53
dynamic_headroom r pressure =
    to_u32 (mul (of_u64 r.ram_headroom_base_mb) (headroom_multiplier pressure))

-- `as u32` keeps the low bits of an integer.
abbrev pub as_u32 : ℕ → ℕ
as_u32 n = n % 4294967296

unfoldable pub recommend_max_agents : Recommender → SystemResources → MemoryPressureLevel → ℕ → ℕ
recommend_max_agents r resources pressure ram_per_agent_mb =
    let cpu_limit = as_u32 ((resources.cpu_count * 2) % 18446744073709551616) in
    let headroom = dynamic_headroom r pressure in
    let available = resources.ram_available_mb - headroom in
    let ram_limit =
      if ltb 0 ram_per_agent_mb then as_u32 (available / ram_per_agent_mb) else u32_max in
    let recommended = min cpu_limit ram_limit in
    if ltb 0 r.max_agents_hard_limit then min recommended r.max_agents_hard_limit else recommended

-- 1.0, 0.75, 0.5 and 0.25.
abbrev pub thermal_multiplier : ThermalPressureLevel → F64
thermal_multiplier nominal = finite false 1 0
thermal_multiplier fair = finite false 3 2
thermal_multiplier serious = finite false 1 1
thermal_multiplier Thermal.critical = finite false 1 2

unfoldable pub recommend_max_agents_thermal :
    Recommender → SystemResources → MemoryPressureLevel → ThermalPressureLevel → ℕ → ℕ
recommend_max_agents_thermal r resources pressure thermal ram_per_agent_mb =
    let base = recommend_max_agents r resources pressure ram_per_agent_mb in
    let clamped = to_u32 (mul (of_u64 base) (thermal_multiplier thermal)) in min clamped base
