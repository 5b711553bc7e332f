-- ===== src/Governor/Budget.antt =====
-- src/governor/budget.rs: the budget of a tier and the counters of its use. Each counter is an
-- `AtomicU64`, whose additions and subtractions wrap around.
use aros_kernel.Prelude.{ℕ, ◌-◌, Bool, true, false, add64, sub64}

pub record TierBudget : Type 0 where
  pub max_concurrent : ℕ
  pub max_tokens_per_hour : ℕ
  pub max_rss_mb : ℕ
  pub sheddable : Bool

abbrev pub p0_budget : TierBudget
p0_budget = record {
  max_concurrent = 2;
  max_tokens_per_hour = 50_000;
  max_rss_mb = 512;
  sheddable = false;
}

abbrev pub p1_budget : TierBudget
p1_budget = record {
  max_concurrent = 4;
  max_tokens_per_hour = 500_000;
  max_rss_mb = 4096;
  sheddable = false;
}

abbrev pub p2_budget : TierBudget
p2_budget = record {
  max_concurrent = 2;
  max_tokens_per_hour = 200_000;
  max_rss_mb = 2048;
  sheddable = true;
}

pub record TierUsage : Type 0 where
  pub active_tasks : ℕ
  pub tokens_used_this_hour : ℕ
  pub rss_allocated_mb : ℕ

abbrev pub new_usage : TierUsage
new_usage = record { active_tasks = 0; tokens_used_this_hour = 0; rss_allocated_mb = 0 }

unfoldable pub record_task_start : ℕ → TierUsage → TierUsage
record_task_start rss_mb u = record u {
  active_tasks = add64 u.active_tasks 1;
  rss_allocated_mb = add64 u.rss_allocated_mb rss_mb;
}

-- The count wraps below zero, the memory stops there.
unfoldable pub record_task_end : ℕ → TierUsage → TierUsage
record_task_end rss_mb u = record u {
  active_tasks = sub64 u.active_tasks 1;
  rss_allocated_mb = u.rss_allocated_mb - rss_mb;
}

unfoldable pub record_tokens : ℕ → TierUsage → TierUsage
record_tokens count u = record u { tokens_used_this_hour = add64 u.tokens_used_this_hour count }

unfoldable pub reset_tokens : TierUsage → TierUsage
reset_tokens u = record u { tokens_used_this_hour = 0 }
