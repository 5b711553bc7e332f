-- ===== src/Supervisor/Health.antt =====
-- src/supervisor/health.rs: the health of the whole from the states of its processes.
pub mod Level
use aros_kernel.Prelude.{
  ℕ, ◌-◌, ◌/◌, String, Bool, true, false, ◌||◌, Option, none, List, [], ◌∷◌, all, any,
  if◌then◌else◌,
}
use aros_kernel.Supervisor.Process.{
  ProcessId, ProcessState, starting, running, failed, restarting, state_eq,
}

pub data HealthLevel : Type 0 where
  healthy degraded recovering : HealthLevel

pub record ProcessHealth : Type 0 where
  pub id : ProcessId
  pub state : ProcessState
  pub uptime_secs : ℕ
  pub restart_count : ℕ

pub record HealthStatus : Type 0 where
  pub status : HealthLevel
  pub kernel_uptime_secs : ℕ
  pub active_processes : List ProcessHealth
  pub last_checkpoint : Option String

unfoldable pub is_running : ProcessHealth → Bool
is_running p = state_eq p.state running

unfoldable pub is_failed : ProcessHealth → Bool
is_failed p = state_eq p.state failed

unfoldable pub is_restarting : ProcessHealth → Bool
is_restarting p = state_eq p.state restarting || state_eq p.state starting

unfoldable pub level_of : List ProcessHealth → HealthLevel
level_of [] = healthy
level_of (p ∷ ps) =
    if all is_running (p ∷ ps)
    then healthy
    else if any is_failed (p ∷ ps)
    then degraded
    else if any is_restarting (p ∷ ps)
    then recovering
    else degraded

-- The whole seconds from one time to another.
abbrev pub elapsed_secs : ℕ → ℕ → ℕ
elapsed_secs since now = (now - since) / 1_000_000_000

unfoldable pub compute : ℕ → List ProcessHealth → ℕ → HealthStatus
compute now processes kernel_start = record {
  status = level_of processes;
  kernel_uptime_secs = elapsed_secs kernel_start now;
  active_processes = processes;
  last_checkpoint = none;
}
