-- ===== src/Governor/Within.antt =====
-- The invariant of src/governor/governor.rs: no tier and no system limit is overdrawn.
use aros_kernel.Prelude.{
  ℕ, ◌+◌, ◌-◌, ◌≤◌, ◌<◌, ◌≡◌, refl, some, List, [], ◌∷◌, map, arith, u32_max, u64_max,
}
use aros_kernel.Prelude.Map.{lookup, modify, values}
use aros_kernel.Envelope.{Priority, priority_eq}
use aros_kernel.Governor.Budget.{TierBudget, TierUsage}
use aros_kernel.Governor.{GovernorConfig, ResourceGovernor, sum64, rss_of, total_rss, ceiling}

abbrev pub sum : List ℕ → ℕ
sum [] = 0
sum (x ∷ xs) = x + sum xs

-- The memory that all tiers hold together.
abbrev pub allocated : ResourceGovernor → ℕ
allocated g = sum (map rss_of (values g.tier_usage))

sum64_exact : (xs : List ℕ) → sum xs ≤ u64_max → sum64 xs ≡ sum xs
sum64_exact [] h = refl
sum64_exact (x ∷ xs) h = omega (arith, sum64_exact xs (omega arith))

pub total_rss_exact : (g : ResourceGovernor) → allocated g ≤ u64_max → total_rss g ≡ allocated g
unfolding total_rss
total_rss_exact g h = sum64_exact (map rss_of (values g.tier_usage)) h

pub ceiling_exact :
    (c : GovernorConfig)
    → c.headroom_mb ≤ c.system_rss_ceiling_mb
    → c.system_rss_ceiling_mb ≤ u32_max
    → ceiling c ≡ c.system_rss_ceiling_mb - c.headroom_mb
unfolding ceiling
ceiling_exact c h b = omega arith

-- A write to one tier changes the sum by the change of that tier.
pub sum-modify :
    (p : Priority) (f : TierUsage → TierUsage) (m : List (Priority × TierUsage)) (u : TierUsage)
    → lookup p m ≡ some u
    → sum (map rss_of (values (modify p f m))) + rss_of u
      ≡ sum (map rss_of (values m)) + rss_of (f u)
unfolding lookup modify
sum-modify p f [] u h = cc
sum-modify p f ((q, w) ∷ m) u h = ground (arith, sum-modify p f m u)

pub rss-le-sum :
    (p : Priority) (m : List (Priority × TierUsage)) (u : TierUsage)
    → lookup p m ≡ some u
    → rss_of u ≤ sum (map rss_of (values m))
unfolding lookup
rss-le-sum p [] u h = cc
rss-le-sum p ((q, w) ∷ m) u h = ground (arith, rss-le-sum p m u)

-- The budget of a tier fits its fields, and the counters stay inside it.
pub record TierWithin (b : TierBudget) (u : TierUsage) : Type 0 where
  pub concurrent_fits : b.max_concurrent ≤ u32_max
  pub rss_fits : b.max_rss_mb ≤ u32_max
  pub tokens_fit : b.max_tokens_per_hour < u64_max
  pub active : u.active_tasks ≤ b.max_concurrent
  pub rss : u.rss_allocated_mb ≤ b.max_rss_mb

pub record IsWithin (g : ResourceGovernor) : Type 0 where
  pub headroom : g.config.headroom_mb ≤ g.config.system_rss_ceiling_mb
  pub ceiling_fits : g.config.system_rss_ceiling_mb ≤ u32_max
  pub total : allocated g + g.config.headroom_mb ≤ g.config.system_rss_ceiling_mb
  pub tiers :
      (p : Priority) (b : TierBudget) (u : TierUsage)
      → lookup p g.tier_budgets ≡ some b
      → lookup p g.tier_usage ≡ some u
      → TierWithin b u
