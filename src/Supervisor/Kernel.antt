-- ===== src/Supervisor/Kernel.antt =====
-- src/supervisor/kernel.rs: the supervisor. Each operation takes the time `now` at which it runs.
pub mod Update
pub mod Agreement
use aros_kernel.Prelude.{
  ℕ, Bool, true, false, not, ◌&&◌, Option, none, some, List, [], ◌∷◌, map, all, if◌then◌else◌,
}
use aros_kernel.Prelude.Map.{lookup, insert, modify, values}
use aros_kernel.Prelude.Result.{Result, ok, err}
use aros_kernel.Supervisor.Process.{
  ProcessId, id_eq, ProcessState, starting, running, stopped, failed, restarting, state_eq,
  SupervisorError, max_restarts_exceeded, process_not_found, invalid_transition, RestartPolicy,
  RestartTracker, record_restart, reset, restart_count, ChildHandle,
}
use aros_kernel.Supervisor.Process as Process
use aros_kernel.Supervisor.Health.{healthy, ProcessHealth, HealthStatus, elapsed_secs, compute}

pub record KernelSupervisor : Type 0 where
  pub children : List (ProcessId × ChildHandle)
  pub kernel_start : ℕ
  pub health_state : HealthStatus

unfoldable pub new : ℕ → KernelSupervisor
new now = record {
  children = [];
  kernel_start = now;
  health_state = record {
    status = healthy;
    kernel_uptime_secs = 0;
    active_processes = [];
    last_checkpoint = none;
  };
}

unfoldable pub health_of : ℕ → ChildHandle → ProcessHealth
health_of now h = record {
  id = h.id;
  state = h.state;
  uptime_secs = elapsed_secs h.started_at now;
  restart_count = restart_count h.restart_tracker;
}

unfoldable pub refresh_health : ℕ → KernelSupervisor → KernelSupervisor
refresh_health now sv = record sv {
  health_state = compute now (map (health_of now) (values sv.children)) sv.kernel_start;
}

unfoldable pub new_handle : ℕ → ProcessId → RestartPolicy → ChildHandle
new_handle now id policy = record {
  id = id;
  state = starting;
  restart_tracker = Process.new policy;
  started_at = now;
  pid = none;
}

unfoldable pub register : ℕ → ProcessId → RestartPolicy → KernelSupervisor → KernelSupervisor
register now id policy sv =
    refresh_health now (record sv { children = insert id (new_handle now id policy) sv.children })

-- What `handle_failure` does with the handle, and its answer.
unfoldable pub fail_handle : ℕ → ProcessId → ChildHandle → Result Unit SupervisorError × ChildHandle
fail_handle now id h =
    let (answer, tracker) = record_restart now h.restart_tracker in
    let tracked = record h { restart_tracker = tracker } in
    elim answer [
      | ok _ ↦ (ok tt, record tracked { state = restarting; started_at = now })
      | err _ ↦ (err (max_restarts_exceeded id), tracked)
    ]

unfoldable pub handle_failure :
    ℕ → ProcessId → KernelSupervisor → Result Unit SupervisorError × KernelSupervisor
handle_failure now id sv = elim (lookup id sv.children) [
  | none ↦ (err (process_not_found id), sv)
  | some h ↦
      let (answer, handled) = fail_handle now id h in
      (answer, record sv { children = modify id (λ _. handled) sv.children })
]

-- The assignments of `update_state` to the handle.
unfoldable pub enter_state : ProcessState → ChildHandle → ChildHandle
enter_state state h =
    let entered = record h { state = state } in
    if state_eq state running
    then record entered { restart_tracker = reset h.restart_tracker }
    else entered

-- The assignments are made under one lock and `handle_failure` under a second; here they follow each
-- other at once.
unfoldable pub update_state :
    ℕ → ProcessId → ProcessState → KernelSupervisor → Result Unit SupervisorError × KernelSupervisor
update_state now id state sv = elim (lookup id sv.children) [
  | none ↦ (err (process_not_found id), sv)
  | some h ↦
      if state_eq h.state stopped && state_eq state running
      then (err (invalid_transition id h.state state), sv)
      else (let entered = record sv { children = modify id (enter_state state) sv.children } in
          let (answer, handled) =
            if state_eq state failed then handle_failure now id entered else (ok tt, entered) in
          elim answer [ ok _ ↦ (ok tt, refresh_health now handled) | err e ↦ (err e, handled) ])
]

unfoldable pub health : ℕ → KernelSupervisor → HealthStatus × KernelSupervisor
health now sv = let refreshed = refresh_health now sv in (refreshed.health_state, refreshed)

unfoldable pub is_child_running : ChildHandle → Bool
is_child_running h = state_eq h.state running

unfoldable pub all_healthy : KernelSupervisor → Bool
all_healthy sv = elim (values sv.children) [ [] ↦ false | h ∷ hs ↦ all is_child_running (h ∷ hs) ]
