-- ===== src/Supervisor/Examples.antt =====
-- A supervisor with two processes, and the theorems about src/supervisor at it.
use aros_kernel.Prelude.{List, some, String, string_eq}
use aros_kernel.Prelude.Float.{below_zero, above_one}
use aros_kernel.Envelope.{
  TaskEnvelope, green, p1_normal, priority_eq, default_budget, default_checkpoint, validate,
}
use aros_kernel.Envelope.Validation.{IsWellFormed}
use aros_kernel.Hardware.Pressure.{normal}
use aros_kernel.Governor.{
  ResourceGovernor, default_config, check_admission, decide_admission, total_rss, ceiling,
}
use aros_kernel.Governor.Budget.{p1_budget, new_usage, TierUsage}
use aros_kernel.Governor.Within.{IsWithin}
use aros_kernel.Governor.Admission.{MayStart}
use aros_kernel.Supervisor.Tasks.{
  KernelRequestHandler, task_admitted, completed, unknown_task, Json, answer, remove_task,
  handle_task_submit, handle_task_complete,
}
use aros_kernel.Supervisor.Tasks.Overlap.{first_answer, second_answer, overlapping_submissions}
use aros_kernel.Supervisor.Tasks.Requests.{
  Decodes, handle_task_submit_iff, handle_task_complete_once,
}
use aros_kernel.Prelude.{
  suc, ◌*◌, ◌^◌, ◌≤◌, ◌≡◌, ◌≢◌, ◌⊎◌, refl, none, [], ◌∷◌, arith, min, length, u32_max,
}
use aros_kernel.Prelude.Map.{lookup}
use aros_kernel.Prelude.Result.{ok, err}
use aros_kernel.Supervisor.Process.{
  ProcessId, id_eq, init, loop0_meta, model_adapter, ProcessState, running, failed, stopped,
  starting, restarting, RestartTracker, ChildHandle, default_policy, max_restarts_exceeded,
  process_not_found, invalid_transition, current_backoff, record_restart, duration_max,
}
use aros_kernel.Supervisor.Process.Window.{record_restart_limits, current_backoff_cases, recent}
use aros_kernel.Supervisor.Health.{
  healthy, recovering, ProcessHealth, is_running, is_failed, is_restarting, level_of,
}
use aros_kernel.Supervisor.Kernel.{KernelSupervisor, update_state}
use aros_kernel.Supervisor.Kernel.Update.{ChildIn, Restartable, Exhausted, update_state_outcomes}

abbrev tracker : RestartTracker
tracker = record { policy = default_policy; restart_times = 5 ∷ 6 ∷ []; consecutive_failures = 40 }

record_restart_limits_example :
    (((record_restart 9 tracker).0 ≡ err (max_restarts_exceeded init)) × (5 ≤ recent 9 tracker))
    ⊎ (((record_restart 9 tracker).0 ≡ ok (current_backoff (record_restart 9 tracker).1))
        × (length (record_restart 9 tracker).1.restart_times ≡ suc (recent 9 tracker))
        × (suc (recent 9 tracker) ≤ 5))
record_restart_limits_example = record_restart_limits 9 tracker (omega arith)

current_backoff_cases_example :
    ((40 ≤ 32) × (current_backoff tracker ≡ min (100_000_000 * 2 ^ 39) 30_000_000_000))
    ⊎ ((33 ≤ 40) × (40 ≤ 64) × (current_backoff tracker ≡ 0))
    ⊎ ((65 ≤ 40)
        × (current_backoff tracker
            ≡ min (min (100_000_000 * 4294967295) duration_max) 30_000_000_000))
current_backoff_cases_example = current_backoff_cases tracker (omega arith)

abbrev reported : ProcessState → ProcessHealth
reported s = record { id = loop0_meta; state = s; uptime_secs = 1; restart_count = 0 }

recovers_level : level_of (reported running ∷ reported starting ∷ []) ≡ recovering
unfolding level_of is_running is_failed is_restarting
recovers_level = refl

abbrev child : ProcessId → ProcessState → ChildHandle
child id s = record { id = id; state = s; restart_tracker = tracker; started_at = 1; pid = none }

abbrev pub watched : KernelSupervisor
watched = record {
  children =
      (loop0_meta, child loop0_meta running) ∷ (model_adapter, child model_adapter stopped) ∷ [];
  kernel_start = 0;
  health_state = record {
    status = healthy;
    kernel_uptime_secs = 0;
    active_processes = [];
    last_checkpoint = none;
  };
}

watched_short :
    (h : ChildHandle)
    → lookup loop0_meta watched.children ≡ some h
    → length h.restart_tracker.restart_times ≤ u32_max
unfolding lookup
watched_short h here = ground arith

update_state_outcomes_example :
    ((lookup loop0_meta watched.children ≡ none)
      × (update_state 9 loop0_meta failed watched ≡ (err (process_not_found loop0_meta), watched)))
    ⊎ (ChildIn stopped loop0_meta watched
        × (failed ≡ running)
        × (update_state 9 loop0_meta failed watched
            ≡ (err (invalid_transition loop0_meta stopped running), watched)))
    ⊎ ((failed ≢ failed)
        × ¬ (ChildIn stopped loop0_meta watched × (failed ≡ running))
        × ((update_state 9 loop0_meta failed watched).0 ≡ ok tt)
        × ChildIn failed loop0_meta (update_state 9 loop0_meta failed watched).1)
    ⊎ ((failed ≡ failed)
        × ((Restartable 9 loop0_meta watched
              × ((update_state 9 loop0_meta failed watched).0 ≡ ok tt)
              × ChildIn restarting loop0_meta (update_state 9 loop0_meta failed watched).1)
            ⊎ (Exhausted 9 loop0_meta watched
                × ((update_state 9 loop0_meta failed watched).0
                    ≡ err (max_restarts_exceeded loop0_meta))
                × ChildIn failed loop0_meta (update_state 9 loop0_meta failed watched).1)))
update_state_outcomes_example = update_state_outcomes 9 loop0_meta failed watched watched_short

-- A governor with one tier that runs nothing.
abbrev pub idle_governor : ResourceGovernor
idle_governor = record {
  tier_budgets = (p1_normal, p1_budget) ∷ [];
  tier_usage = (p1_normal, new_usage) ∷ [];
  pressure_level = normal;
  config = default_config;
}

pub idle_governor-IsWithin : IsWithin idle_governor
unfolding lookup
idle_governor-IsWithin = record {
  headroom = omega arith;
  ceiling_fits = omega arith;
  total = omega arith;
  tiers = λ p b u has_b has_u. ground arith;
}

abbrev pub plain : TaskEnvelope
plain = record {
  task_id = "t";
  parent_dag_id = "d";
  task_spec = record {
    title = "";
    description = "";
    working_dir = none;
    env_vars = [];
    max_retries = 0;
  };
  security_zone = green;
  priority = p1_normal;
  resource_budget = default_budget;
  tool_endpoints = [];
  checkpoint_policy = default_checkpoint;
  created_at = "";
  envelope_version = 1;
}

-- Objects whose fields are texts; each is read as the same envelope.
abbrev pub texts : Json (List (String × String))
texts = record {
  get_str = λ name v. lookup name v;
  get_u64 = λ name v. none;
  decode = λ v. ok plain;
}

pub texts-Decodes : Decodes texts
texts-Decodes = record { rss_fits = λ v e good. ground arith }

abbrev pub handler : KernelRequestHandler
handler = record { governor = idle_governor; task_registry = ("t", "/tmp/t.sock") ∷ [] }

submitted : (handle_task_submit texts (some []) handler).0 ≡ ok (task_admitted "t")
unfolding handle_task_submit answer validate below_zero above_one check_admission decide_admission
    total_rss ceiling lookup
submitted = refl

handle_task_submit_iff_example : IsWellFormed plain × MayStart idle_governor p1_normal 512 100_000
handle_task_submit_iff_example =
    (handle_task_submit_iff texts [] plain handler refl (omega arith) idle_governor-IsWithin).0
      submitted

-- With one slot of the tier left.
abbrev almost_full : TierUsage
almost_full = record { active_tasks = 3; tokens_used_this_hour = 0; rss_allocated_mb = 0 }

abbrev busy_handler : KernelRequestHandler
busy_handler = record handler {
  governor = record idle_governor { tier_usage = (p1_normal, almost_full) ∷ [] };
}

busy_handler-IsWithin : IsWithin busy_handler.governor
unfolding lookup
busy_handler-IsWithin = record {
  headroom = omega arith;
  ceiling_fits = omega arith;
  total = omega arith;
  tiers = λ p b u has_b has_u. ground arith;
}

busy_may : MayStart busy_handler.governor p1_normal 512 100_000
unfolding lookup
busy_may = record {
  budget = p1_budget;
  usage = almost_full;
  has_budget = refl;
  has_usage = refl;
  room = record {
    not_shed = refl;
    slot = omega arith;
    tokens_left = omega arith;
    tier_memory = omega arith;
    system_memory = omega arith;
  };
}

last_slot : suc busy_may.usage.active_tasks ≡ busy_may.budget.max_concurrent
unfolding busy_may
last_slot = refl

overlapping_submissions_example :
    ((first_answer texts busy_handler plain plain).0 ≡ ok (task_admitted "t"))
    × ((second_answer texts busy_handler plain plain).0 ≡ ok (task_admitted "t"))
    × ((v : TierUsage) × (lookup p1_normal
            (second_answer texts busy_handler plain plain).1.governor.tier_usage
          ≡ some v)
        × (v.active_tasks ≡ suc busy_may.budget.max_concurrent))
    × ¬ IsWithin (second_answer texts busy_handler plain plain).1.governor
overlapping_submissions_example =
    overlapping_submissions texts busy_handler plain plain (omega arith) (omega arith)
      busy_handler-IsWithin busy_may busy_may refl last_slot

abbrev pub request : List (String × String)
request = ("task_id", "t") ∷ ("dag_id", "d") ∷ []

ended : (handle_task_complete texts (some request) handler).0 ≡ ok (completed "t")
unfolding handle_task_complete remove_task lookup
ended = refl

handle_task_complete_once_example :
    (id : String) × (lookup "task_id" request ≡ some id)
    × (handle_task_complete texts
          (some request)
          (handle_task_complete texts (some request) handler).1
        ≡ (err (unknown_task id), (handle_task_complete texts (some request) handler).1))
handle_task_complete_once_example =
    handle_task_complete_once texts request handler (completed "t") ended
