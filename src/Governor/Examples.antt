-- ===== src/Governor/Examples.antt =====
-- A new governor, and the theorems about src/governor at it.
use aros_kernel.Prelude.{u64_max, List, ◌≡◌, ◌≢◌, refl, some, [], ◌∷◌, arith}
use aros_kernel.Prelude.Map.{lookup}
use aros_kernel.Envelope.{p0_critical, p1_normal, p2_background, priority_eq}
use aros_kernel.Hardware.Pressure.{normal, critical}
use aros_kernel.Governor.{
  ResourceGovernor, default_config, check_admission, decide_admission, total_rss, ceiling,
  task_ended,
}
use aros_kernel.Governor.Budget.{TierUsage, p0_budget, p1_budget, p2_budget, new_usage}
use aros_kernel.Governor.Decision.{admitted, shed, critical_pressure}
use aros_kernel.Governor.Within.{IsWithin}
use aros_kernel.Governor.Admission.{MayStart, check_admission_iff}
use aros_kernel.Governor.Accounting.{pressure, started, history}
use aros_kernel.Governor.Wrapping.{
  never_shed, Move, submits, ends, resets, moved_all, closed_after_unmatched_end,
}

-- What `new` returns for the default configuration.
abbrev fresh : ResourceGovernor
fresh = record {
  tier_budgets =
      (p2_background, p2_budget) ∷ (p1_normal, p1_budget) ∷ (p0_critical, p0_budget) ∷ [];
  tier_usage = (p2_background, new_usage) ∷ (p1_normal, new_usage) ∷ (p0_critical, new_usage) ∷ [];
  pressure_level = normal;
  config = default_config;
}

-- With one normal task that holds 512 MB.
abbrev one_task : TierUsage
one_task = record { active_tasks = 1; tokens_used_this_hour = 0; rss_allocated_mb = 512 }

abbrev busy : ResourceGovernor
busy = record fresh {
  tier_usage = (p2_background, new_usage) ∷ (p1_normal, one_task) ∷ (p0_critical, new_usage) ∷ [];
}

fresh-IsWithin : IsWithin fresh
unfolding lookup
fresh-IsWithin = record {
  headroom = omega arith;
  ceiling_fits = omega arith;
  total = omega arith;
  tiers = λ p b u has_b has_u. ground arith;
}

busy-IsWithin : IsWithin busy
unfolding lookup
busy-IsWithin = record {
  headroom = omega arith;
  ceiling_fits = omega arith;
  total = omega arith;
  tiers = λ p b u has_b has_u. ground arith;
}

fresh_admits : check_admission p1_normal 512 1000 fresh ≡ admitted
unfolding check_admission decide_admission total_rss ceiling lookup
fresh_admits = refl

check_admission_iff_example : MayStart fresh p1_normal 512 1000
check_admission_iff_example =
    (check_admission_iff fresh p1_normal 512 1000 fresh-IsWithin (omega arith)).0 fresh_admits

busy_normal : lookup p1_normal busy.tier_usage ≡ some one_task
unfolding lookup
busy_normal = refl

normal_kept : p1_normal ≢ p2_background
normal_kept e = absurd (ground arith)

never_shed_example :
    check_admission p1_normal 512 1000
      (history default_config (pressure critical ∷ started p1_normal 4096 ∷ []))
    ≢ shed critical_pressure
never_shed_example =
    never_shed default_config (pressure critical ∷ started p1_normal 4096 ∷ []) p1_normal 512 1000
      critical_pressure normal_kept

fresh_budget : lookup p1_normal fresh.tier_budgets ≡ some p1_budget
unfolding lookup
fresh_budget = refl

fresh_usage : lookup p1_normal fresh.tier_usage ≡ some new_usage
unfolding lookup
fresh_usage = refl

-- A task is submitted to the closed tier, one of another tier ends, and the hour passes.
abbrev moves : List Move
moves = submits p1_normal 1 1 ∷ ends p1_normal 0 ∷ ends p0_critical 0 ∷ resets ∷ []

closed_after_unmatched_end_example :
    ((v : TierUsage) × (lookup p1_normal (task_ended p1_normal 0 fresh).tier_usage ≡ some v)
      × (v.active_tasks ≡ u64_max))
    × (check_admission p1_normal 1 1 (moved_all moves (task_ended p1_normal 0 fresh)) ≢ admitted)
closed_after_unmatched_end_example =
    closed_after_unmatched_end fresh p1_normal p1_budget new_usage 0 moves 1 1 fresh_budget
      fresh_usage refl (omega arith)
