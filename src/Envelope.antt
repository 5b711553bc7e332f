-- ===== src/Envelope.antt =====
-- src/envelope/task_envelope.rs and src/envelope/error.rs: the contract of a task. Times are
-- numbers of nanoseconds. `created_at` is an argument of `new`, since the clock gives it.
pub mod Validation
mod Examples
use aros_kernel.Prelude.{
  ℕ, ◌-◌, String, ◌≡◌, ◌↔◌, Bool, true, false, not, ◌||◌, Option, List, [], ◌∷◌, arith, ltb, leb,
  nat_beq, if◌then◌else◌, Eq, ◌==◌, string_eq,
}
use aros_kernel.Prelude.Float.{F64, finite, of_u64, mul, to_u64, below_zero, above_one, round53}
use aros_kernel.Prelude.Result.{Result, ok, err}

abbrev pub envelope_version : ℕ
envelope_version = 1

pub data SecurityZone : Type 0 where
  green yellow red : SecurityZone

pub data Priority : Type 0 where
  p0_critical p1_normal p2_background : Priority

abbrev pub zone_beq : SecurityZone → SecurityZone → Bool
zone_beq green green = true
zone_beq yellow yellow = true
zone_beq red red = true
zone_beq _ _ = false

pub zone_beq_iff : (a b : SecurityZone) → (zone_beq a b ≡ true) ↔ (a ≡ b)
zone_beq_iff a b = ground arith

instance abbrev pub zone_eq : Eq SecurityZone
zone_eq = record { beq = zone_beq; beq_iff = zone_beq_iff }

abbrev pub priority_beq : Priority → Priority → Bool
priority_beq p0_critical p0_critical = true
priority_beq p1_normal p1_normal = true
priority_beq p2_background p2_background = true
priority_beq _ _ = false

pub priority_beq_iff : (a b : Priority) → (priority_beq a b ≡ true) ↔ (a ≡ b)
priority_beq_iff a b = ground arith

instance abbrev pub priority_eq : Eq Priority
priority_eq = record { beq = priority_beq; beq_iff = priority_beq_iff }

pub record ResourceBudget : Type 0 where
  pub max_rss_mb : ℕ
  pub max_wall_time : ℕ
  pub max_tokens : ℕ
  pub budget_warning_threshold : F64

-- 0.9 is 8106479329266893 / 2 ^ 53.
abbrev pub default_budget : ResourceBudget
default_budget = record {
  max_rss_mb = 512;
  max_wall_time = 300_000_000_000;
  max_tokens = 100_000;
  budget_warning_threshold = finite false 8106479329266893 53;
}

pub record ToolEndpoint : Type 0 where
  pub name : String
  pub socket_path : String
  pub capabilities : List String

pub record CheckpointPolicy : Type 0 where
  pub interval : ℕ
  pub on_tool_call : Bool

abbrev pub default_checkpoint : CheckpointPolicy
default_checkpoint = record { interval = 60_000_000_000; on_tool_call = true }

pub record TaskSpec : Type 0 where
  pub title : String
  pub description : String
  pub working_dir : Option String
  pub env_vars : List (String × String)
  pub max_retries : ℕ

pub record TaskEnvelope : Type 0 where
  pub task_id : String
  pub parent_dag_id : String
  pub task_spec : TaskSpec
  pub security_zone : SecurityZone
  pub priority : Priority
  pub resource_budget : ResourceBudget
  pub tool_endpoints : List ToolEndpoint
  pub checkpoint_policy : CheckpointPolicy
  pub created_at : String
  pub envelope_version : ℕ

-- `TaskEnvelope::new`.
unfoldable pub new :
    String → String → TaskSpec → SecurityZone → Priority → (now : String) → TaskEnvelope
new task_id parent_dag_id spec zone priority now = record {
  task_id = task_id;
  parent_dag_id = parent_dag_id;
  task_spec = spec;
  security_zone = zone;
  priority = priority;
  resource_budget = default_budget;
  tool_endpoints = [];
  checkpoint_policy = default_checkpoint;
  created_at = now;
  envelope_version = envelope_version;
}

unfoldable pub is_token_budget_exceeded : TaskEnvelope → ℕ → Bool
is_token_budget_exceeded e used = ltb e.resource_budget.max_tokens used

unfoldable pub warning_threshold : ResourceBudget → ℕ
unfolding mul to_u64 round53
warning_threshold b = to_u64 (mul (of_u64 b.max_tokens) b.budget_warning_threshold)

unfoldable pub is_token_budget_warning : TaskEnvelope → ℕ → Bool
is_token_budget_warning e used = leb (warning_threshold e.resource_budget) used

unfoldable pub is_wall_time_exceeded : TaskEnvelope → ℕ → Bool
is_wall_time_exceeded e elapsed = ltb e.resource_budget.max_wall_time elapsed

-- The text of `InvalidBudget` is a case of `BudgetFault`.
pub data BudgetFault : Type 0 where
  threshold_range tokens_zero rss_zero wall_time_zero : BudgetFault

pub data EnvelopeError : Type 0 where
  empty_task_id empty_dag_id : EnvelopeError
  unsupported_version : ℕ → EnvelopeError
  invalid_budget : BudgetFault → EnvelopeError

unfoldable pub validate : TaskEnvelope → Result (Unit {0}) EnvelopeError
validate e =
    if e.task_id == ""
    then err empty_task_id
    else if e.parent_dag_id == ""
    then err empty_dag_id
    else if not (nat_beq e.envelope_version envelope_version)
    then err (unsupported_version e.envelope_version)
    else if below_zero budget_warning_threshold || above_one budget_warning_threshold
    then err (invalid_budget threshold_range)
    else if nat_beq max_tokens 0
    then err (invalid_budget tokens_zero)
    else if nat_beq max_rss_mb 0
    then err (invalid_budget rss_zero)
    else if nat_beq max_wall_time 0
    then err (invalid_budget wall_time_zero)
    else ok tt
  where
    open e.resource_budget use {max_rss_mb, max_wall_time, max_tokens, budget_warning_threshold}
