-- ===== src/Governor.antt =====
-- src/governor: admission and run-time budgets for each tier of priority.
pub mod Budget
pub mod Decision
pub mod Within
pub mod Admission
pub mod Accounting
pub mod Wrapping
pub mod Runtime
mod Examples
use aros_kernel.Prelude.{
  ℕ, zero, suc, ◌+◌, Bool, true, false, not, ◌&&◌, Option, none, some, List, [], ◌∷◌, map,
  if◌then◌else◌, ltb, leb, add64, sub64, saturating_add64, Eq,
}
use aros_kernel.Prelude.Float.{finite, of_u64, mul, to_u64, round53}
use aros_kernel.Prelude.Map.{lookup, insert, modify, values}
use aros_kernel.Envelope.{
  Priority, p0_critical, p1_normal, p2_background, priority_eq, priority_beq,
}
use aros_kernel.Hardware.Pressure.{MemoryPressureLevel, normal, warn, critical, level_eq}
use aros_kernel.Governor.Budget.{
  TierBudget, p0_budget, p1_budget, p2_budget, TierUsage, new_usage, record_task_start,
  record_task_end, record_tokens, reset_tokens,
}
use aros_kernel.Governor.Decision.{
  AdmissionDecision, admitted, queued, throttled, shed, unknown_tier, critical_pressure,
  concurrent_limit, token_budget, tier_rss_limit, system_rss_ceiling, RuntimeDecision, continue,
  warning, exceeded, runtime_unknown_tier, runtime_critical_pressure, token_budget_exceeded,
  approaching_budget, elevated_pressure,
}

pub record GovernorConfig : Type 0 where
  pub system_rss_ceiling_mb : ℕ
  pub headroom_mb : ℕ

abbrev pub default_config : GovernorConfig
default_config = record { system_rss_ceiling_mb = 10_240; headroom_mb = 2_048 }

pub record ResourceGovernor : Type 0 where
  pub tier_budgets : List (Priority × TierBudget)
  pub tier_usage : List (Priority × TierUsage)
  pub pressure_level : MemoryPressureLevel
  pub config : GovernorConfig

unfoldable pub new : GovernorConfig → ResourceGovernor
unfolding insert
new config = record {
  tier_budgets =
      insert p2_background p2_budget (insert p1_normal p1_budget (insert p0_critical p0_budget []));
  tier_usage =
      insert p2_background new_usage (insert p1_normal new_usage (insert p0_critical new_usage []));
  pressure_level = normal;
  config = config;
}

unfoldable pub update_pressure : MemoryPressureLevel → ResourceGovernor → ResourceGovernor
update_pressure level g = record g { pressure_level = level }

-- `sum` over `u64`.
abbrev pub sum64 : List ℕ → ℕ
sum64 [] = 0
sum64 (x ∷ xs) = add64 x (sum64 xs)

abbrev pub rss_of : TierUsage → ℕ
rss_of u = u.rss_allocated_mb

unfoldable pub total_rss : ResourceGovernor → ℕ
total_rss g = sum64 (map rss_of (values g.tier_usage))

unfoldable pub ceiling : GovernorConfig → ℕ
ceiling c = sub64 c.system_rss_ceiling_mb c.headroom_mb

-- The checks 1 to 5 of `check_admission`, once the tier is found.
unfoldable pub decide_admission :
    ResourceGovernor → TierBudget → TierUsage → ℕ → ℕ → AdmissionDecision
decide_admission g budget usage rss_mb tokens_estimate =
    if level_eq g.pressure_level critical && budget.sheddable
    then shed critical_pressure
    else if leb budget.max_concurrent usage.active_tasks
    then queued (concurrent_limit usage.active_tasks budget.max_concurrent)
    else if ltb budget.max_tokens_per_hour
        (saturating_add64 usage.tokens_used_this_hour tokens_estimate)
    then (if budget.sheddable
        then shed (token_budget usage.tokens_used_this_hour budget.max_tokens_per_hour)
        else throttled (token_budget usage.tokens_used_this_hour budget.max_tokens_per_hour))
    else if ltb budget.max_rss_mb (add64 usage.rss_allocated_mb rss_mb)
    then queued (tier_rss_limit usage.rss_allocated_mb rss_mb budget.max_rss_mb)
    else if ltb (ceiling g.config) (add64 (total_rss g) rss_mb)
    then queued (system_rss_ceiling (total_rss g) rss_mb (ceiling g.config))
    else admitted

unfoldable pub check_admission : Priority → ℕ → ℕ → ResourceGovernor → AdmissionDecision
check_admission priority rss_mb tokens_estimate g = elim (lookup priority g.tier_budgets) [
  | none ↦ shed unknown_tier
  | some budget ↦ elim (lookup priority g.tier_usage) [
    | none ↦ shed unknown_tier
    | some usage ↦ decide_admission g budget usage rss_mb tokens_estimate
  ]
]

-- `(max as f64 * 0.8) as u64`, where 0.8 is 7205759403792794 / 2 ^ 53.
unfoldable pub warning_threshold : ℕ → ℕ
unfolding mul to_u64 round53
warning_threshold max = to_u64 (mul (of_u64 max) (finite false 7205759403792794 53))

unfoldable pub check_runtime : Priority → ℕ → ResourceGovernor → RuntimeDecision
check_runtime priority tokens_used g = elim (lookup priority g.tier_budgets) [
  | none ↦ exceeded runtime_unknown_tier
  | some budget ↦
      if level_eq g.pressure_level critical && not (priority_beq priority p0_critical)
      then exceeded runtime_critical_pressure
      else if ltb budget.max_tokens_per_hour tokens_used
      then exceeded (token_budget_exceeded tokens_used budget.max_tokens_per_hour)
      else if ltb (warning_threshold budget.max_tokens_per_hour) tokens_used
      then warning (approaching_budget tokens_used budget.max_tokens_per_hour)
      else if level_eq g.pressure_level warn && not (priority_beq priority p0_critical)
      then warning elevated_pressure
      else continue
]

unfoldable pub task_started : Priority → ℕ → ResourceGovernor → ResourceGovernor
task_started priority rss_mb g = record g {
  tier_usage = modify priority (record_task_start rss_mb) g.tier_usage;
}

unfoldable pub task_ended : Priority → ℕ → ResourceGovernor → ResourceGovernor
task_ended priority rss_mb g = record g {
  tier_usage = modify priority (record_task_end rss_mb) g.tier_usage;
}

unfoldable pub tokens_used : Priority → ℕ → ResourceGovernor → ResourceGovernor
tokens_used priority count g = record g {
  tier_usage = modify priority (record_tokens count) g.tier_usage;
}

-- The loop of `reset_hourly_tokens` over the tiers.
unfoldable pub reset_all : List (Priority × TierUsage) → List (Priority × TierUsage)
reset_all [] = []
reset_all ((p, u) ∷ m) = (p, reset_tokens u) ∷ reset_all m

unfoldable pub reset_hourly_tokens : ResourceGovernor → ResourceGovernor
unfolding reset_all
reset_hourly_tokens g = record g { tier_usage = reset_all g.tier_usage }

pub record UsageSnapshot : Type 0 where
  pub active_tasks : ℕ
  pub tokens_used_this_hour : ℕ
  pub rss_allocated_mb : ℕ
  pub budget : TierBudget

-- The entry of `usage_snapshot` for one tier; `none` where the source would panic.
unfoldable pub snapshot_of : ResourceGovernor → Priority → TierUsage → Option UsageSnapshot
snapshot_of g priority usage = elim (lookup priority g.tier_budgets) [
  | none ↦ none
  | some budget ↦ some (record {
    active_tasks = usage.active_tasks;
    tokens_used_this_hour = usage.tokens_used_this_hour;
    rss_allocated_mb = usage.rss_allocated_mb;
    budget = budget;
  })
]
