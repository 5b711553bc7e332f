-- ===== src/Boot.antt =====
-- src/main.rs: what the daemon registers, the order in which it starts and stops the processes, and
-- a tick of its health loop. `clock i` is the time at the operation number `i`.
pub mod Order
mod Examples
use aros_kernel.Prelude.{ℕ, zero, suc, ◌+◌, ◌-◌, ◌%◌, List, [], ◌∷◌, if◌then◌else◌, leb}
use aros_kernel.Prelude.Result.{Result, ok, err}
use aros_kernel.Hardware.{SystemResources}
use aros_kernel.Hardware.Pressure.{MemoryPressureLevel}
use aros_kernel.Governor.{GovernorConfig, ResourceGovernor, update_pressure}
use aros_kernel.Governor
use aros_kernel.Supervisor.Process.{
  ProcessId, init, kernel, loop0_meta, loop1_agentic, loop2_harness, model_adapter,
  embedding_adapter, running, stopping, stopped, SupervisorError, RestartPolicy, default_policy,
}
use aros_kernel.Supervisor.Health.{HealthStatus}
use aros_kernel.Supervisor.Kernel.{KernelSupervisor, register, update_state, health}

abbrev pub critical_policy : RestartPolicy
critical_policy = record default_policy { max_restarts = 3 }

abbrev pub loop_policy : RestartPolicy
loop_policy = default_policy

abbrev pub adapter_policy : RestartPolicy
adapter_policy = record default_policy { max_restarts = 10; backoff_max = 30_000_000_000 }

-- The calls of `register` in `run_daemon`.
unfoldable pub register_all : (ℕ → ℕ) → KernelSupervisor → KernelSupervisor
register_all clock sv =
    let sv = register (clock 0) init critical_policy sv in
    let sv = register (clock 1) kernel critical_policy sv in
    let sv = register (clock 2) loop0_meta loop_policy sv in
    let sv = register (clock 3) loop1_agentic loop_policy sv in
    let sv = register (clock 4) loop2_harness loop_policy sv in
    let sv = register (clock 5) model_adapter adapter_policy sv in
    register (clock 6) embedding_adapter adapter_policy sv

-- `(ram_total_mb as u32).saturating_sub(2048).max(4096)`, with the headroom.
unfoldable pub governor_config : SystemResources → GovernorConfig
governor_config hw =
    let ceiling = hw.ram_total_mb % 4294967296 - 2048 in
    record {
      system_rss_ceiling_mb = if leb 4096 ceiling then ceiling else 4096;
      headroom_mb = 2048;
    }

unfoldable pub initial_governor : SystemResources → MemoryPressureLevel → ResourceGovernor
unfolding Governor.new update_pressure
initial_governor hw level = update_pressure level (Governor.new (governor_config hw))

abbrev pub Outcome : Type 0
Outcome = Result Unit SupervisorError × KernelSupervisor

-- What `?` does between two operations on the supervisor.
abbrev pub attempt : Outcome → (KernelSupervisor → Outcome) → Outcome
attempt (ok _, sv) next = next sv
attempt (err e, sv) next = (err e, sv)

-- The phases of `boot_sequence`: init, the kernel, the loops, the adapters.
abbrev pub boot_order : List ProcessId
boot_order =
    init ∷ kernel ∷ loop0_meta ∷ loop1_agentic ∷ loop2_harness ∷ model_adapter ∷ embedding_adapter
    ∷ []

abbrev pub shutdown_order : List ProcessId
shutdown_order =
    embedding_adapter ∷ model_adapter ∷ loop2_harness ∷ loop1_agentic ∷ loop0_meta ∷ kernel ∷ init
    ∷ []

module _ (clock : ℕ → ℕ) where
  unfoldable pub start_all : ℕ → List ProcessId → KernelSupervisor → Outcome
  start_all at [] sv = (ok tt, sv)
  start_all at (pid ∷ pids) sv =
      attempt (update_state (clock at) pid running sv) (start_all (at + 1) pids)

  unfoldable pub stop_all : ℕ → List ProcessId → KernelSupervisor → Outcome
  stop_all at [] sv = (ok tt, sv)
  stop_all at (pid ∷ pids) sv = attempt (update_state (clock at) pid stopping sv) λ draining.
      attempt (update_state (clock (at + 1)) pid stopped draining) (stop_all (at + 2) pids)

  unfoldable pub boot_sequence : ℕ → KernelSupervisor → Outcome
  boot_sequence at sv =
      attempt (start_all at boot_order sv) λ started. (ok tt, (health (clock (at + 7)) started).1)

  unfoldable pub graceful_shutdown : ℕ → KernelSupervisor → Outcome
  graceful_shutdown at sv = stop_all at shutdown_order sv

-- A tick of `health_loop`, at the pressure that the probe finds: the health that it reports, and
-- what it leaves.
unfoldable pub health_tick :
    ℕ
    → MemoryPressureLevel
    → KernelSupervisor
    → ResourceGovernor
    → HealthStatus × KernelSupervisor × ResourceGovernor
health_tick now level sv g =
    let governor = update_pressure level g in
    let (status, refreshed) = health now sv in (status, refreshed, governor)
