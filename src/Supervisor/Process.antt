-- ===== src/Supervisor/Process.antt =====
-- src/supervisor/process.rs and src/supervisor/error.rs: how often a process may restart, and how
-- long it waits. Times are numbers of nanoseconds; `now` is what `Instant::now` reads.
pub mod Window
use aros_kernel.Prelude.{
  ℕ, ◌-◌, ◌*◌, ◌^◌, ◌%◌, Bool, true, false, Option, List, [], ◌∷◌, ◌++◌, length, filter,
  if◌then◌else◌, leb, min, add32, ◌≡◌, ◌↔◌, arith, Eq,
}
use aros_kernel.Prelude.Result.{Result, ok, err}

pub data ProcessId : Type 0 where
  init kernel loop0_meta loop1_agentic loop2_harness model_adapter embedding_adapter : ProcessId

abbrev pub id_beq : ProcessId → ProcessId → Bool
id_beq init init = true
id_beq kernel kernel = true
id_beq loop0_meta loop0_meta = true
id_beq loop1_agentic loop1_agentic = true
id_beq loop2_harness loop2_harness = true
id_beq model_adapter model_adapter = true
id_beq embedding_adapter embedding_adapter = true
id_beq _ _ = false

pub id_beq_iff : (a b : ProcessId) → (id_beq a b ≡ true) ↔ (a ≡ b)
id_beq_iff a b = ground arith

instance abbrev pub id_eq : Eq ProcessId
id_eq = record { beq = id_beq; beq_iff = id_beq_iff }

pub data ProcessState : Type 0 where
  starting running stopping stopped failed restarting : ProcessState

abbrev pub state_eq : ProcessState → ProcessState → Bool
state_eq starting starting = true
state_eq running running = true
state_eq stopping stopping = true
state_eq stopped stopped = true
state_eq failed failed = true
state_eq restarting restarting = true
state_eq _ _ = false

pub data SupervisorError : Type 0 where
  max_restarts_exceeded process_not_found : ProcessId → SupervisorError
  invalid_transition : ProcessId → (from to : ProcessState) → SupervisorError
  shutting_down : SupervisorError

pub record RestartPolicy : Type 0 where
  pub max_restarts : ℕ
  pub restart_window : ℕ
  pub backoff_base : ℕ
  pub backoff_max : ℕ

abbrev pub default_policy : RestartPolicy
default_policy = record {
  max_restarts = 5;
  restart_window = 300_000_000_000;
  backoff_base = 100_000_000;
  backoff_max = 30_000_000_000;
}

pub record RestartTracker : Type 0 where
  pub policy : RestartPolicy
  pub restart_times : List ℕ
  pub consecutive_failures : ℕ

unfoldable pub new : RestartPolicy → RestartTracker
new policy = record { policy = policy; restart_times = []; consecutive_failures = 0 }

-- `Duration::MAX`, in nanoseconds.
abbrev pub duration_max : ℕ
duration_max = 18446744073709551615999999999

-- `2u64.saturating_pow(exp)`.
unfoldable pub saturating_pow2 : ℕ → ℕ
saturating_pow2 exp = if leb exp 63 then 2 ^ exp else 18446744073709551615

-- The multiplier is cut to 32 bits before the saturating product.
unfoldable pub current_backoff : RestartTracker → ℕ
current_backoff t =
    let exp = t.consecutive_failures - 1 in
    let multiplier = saturating_pow2 exp % 4294967296 in
    min (min (t.policy.backoff_base * multiplier) duration_max) t.policy.backoff_max

-- `now - restart_window` does not underflow where the clock has run for longer than the window.
unfoldable pub record_restart : ℕ → RestartTracker → Result ℕ SupervisorError × RestartTracker
record_restart now t =
    let cutoff = now - t.policy.restart_window in
    let times = filter (λ at. leb cutoff at) t.restart_times in
    let pruned = record t { restart_times = times } in
    if leb t.policy.max_restarts (length times % 4294967296)
    then (err (max_restarts_exceeded init), pruned)
    else (let counted = record pruned {
      restart_times = times ++ (now ∷ []);
      consecutive_failures = add32 t.consecutive_failures 1;
    } in
        (ok (current_backoff counted), counted))

unfoldable pub reset : RestartTracker → RestartTracker
reset t = record t { restart_times = []; consecutive_failures = 0 }

unfoldable pub restart_count : RestartTracker → ℕ
restart_count t = length t.restart_times % 4294967296

pub record ChildHandle : Type 0 where
  pub id : ProcessId
  pub state : ProcessState
  pub restart_tracker : RestartTracker
  pub started_at : ℕ
  pub pid : Option ℕ
