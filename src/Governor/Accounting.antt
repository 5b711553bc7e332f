-- ===== src/Governor/Accounting.antt =====
-- The counters of src/governor/governor.rs: what each operation does to each tier.
use aros_kernel.Prelude.{
  ℕ, ◌+◌, ◌≤◌, ◌<◌, ◌≡◌, refl, ap, none, some, List, [], ◌∷◌, arith, ◌==◌, if◌then◌else◌, u64_max,
}
use aros_kernel.Prelude.Map.{lookup, modify, insert, lookup-modify}
use aros_kernel.Envelope.{Priority, p0_critical, p1_normal, p2_background, priority_eq}
use aros_kernel.Hardware.Pressure.{MemoryPressureLevel}
use aros_kernel.Governor.Budget.{
  TierUsage, new_usage, record_task_start, record_task_end, record_tokens, reset_tokens,
}
use aros_kernel.Governor.{
  GovernorConfig, ResourceGovernor, new, update_pressure, task_started, task_ended, tokens_used,
  reset_all, reset_hourly_tokens,
}

-- The end of a task undoes its start.
end-start_usage :
    (rss_mb : ℕ) (u : TierUsage)
    → u.active_tasks < u64_max
    → u.rss_allocated_mb + rss_mb ≤ u64_max
    → record_task_end rss_mb (record_task_start rss_mb u) ≡ u
unfolding record_task_start record_task_end
end-start_usage rss_mb u a r = ground arith

module _ (p : Priority) (f h : TierUsage → TierUsage) where
  modify-modify :
      (m : List (Priority × TierUsage)) (u : TierUsage)
      → lookup p m ≡ some u
      → h (f u) ≡ u
      → modify p h (modify p f m) ≡ m
  unfolding lookup modify
  modify-modify [] u here e = refl
  modify-modify ((q, w) ∷ m) u here e = ground (arith, modify-modify m u)

-- A start and an end with the same memory leave the governor as it was, if the counters of the
-- tier are far enough from their bounds.
pub task_ended-task_started :
    (g : ResourceGovernor) (p : Priority) (rss_mb : ℕ) (u : TierUsage)
    → lookup p g.tier_usage ≡ some u
    → u.active_tasks < u64_max
    → u.rss_allocated_mb + rss_mb ≤ u64_max
    → task_ended p rss_mb (task_started p rss_mb g) ≡ g
unfolding task_ended task_started
task_ended-task_started g p rss_mb u here a r =
    ap (λ t. record g { tier_usage = t })
      (modify-modify p (record_task_start rss_mb) (record_task_end rss_mb) g.tier_usage u here
        (end-start_usage rss_mb u a r))

pub lookup-reset_all :
    (p : Priority) (m : List (Priority × TierUsage))
    → lookup p (reset_all m) ≡ elim (lookup p m) [ none ↦ none | some u ↦ some (reset_tokens u) ]
unfolding reset_all lookup
lookup-reset_all p [] = refl
lookup-reset_all p ((q, w) ∷ m) = ground (arith, lookup-reset_all p m)

-- The operations that change the state of a governor.
pub data Op : Type 0 where
  pressure : MemoryPressureLevel → Op
  started ended spent : Priority → ℕ → Op
  hourly : Op

unfoldable pub apply : Op → ResourceGovernor → ResourceGovernor
apply (pressure level) g = update_pressure level g
apply (started p rss_mb) g = task_started p rss_mb g
apply (ended p rss_mb) g = task_ended p rss_mb g
apply (spent p count) g = tokens_used p count g
apply hourly g = reset_hourly_tokens g

unfoldable pub history : GovernorConfig → List Op → ResourceGovernor
history config [] = new config
history config (op ∷ ops) = apply op (history config ops)

-- Every governor has the three tiers of `new`, with the budgets that `new` gives.
pub record HasTiers (config : GovernorConfig) (g : ResourceGovernor) : Type 0 where
  pub same_budgets : g.tier_budgets ≡ (new config).tier_budgets
  pub same_config : g.config ≡ config
  pub known : (p : Priority) → (u : TierUsage) × (lookup p g.tier_usage ≡ some u)

known-modify :
    (f : TierUsage → TierUsage) (q p : Priority) (m : List (Priority × TierUsage))
    → (u : TierUsage) × (lookup p m ≡ some u)
    → (u : TierUsage) × (lookup p (modify q f m) ≡ some u)
known-modify f q p m (u, here) = (if q == p then f u else u, ground (arith, lookup-modify q p f m))

apply-HasTiers :
    (config : GovernorConfig) (op : Op) (g : ResourceGovernor)
    → HasTiers config g
    → HasTiers config (apply op g)
unfolding apply update_pressure task_started task_ended tokens_used reset_hourly_tokens
apply-HasTiers config (pressure level) g h = record {
  same_budgets = h.same_budgets;
  same_config = h.same_config;
  known = h.known;
}
apply-HasTiers config (started q n) g h = record {
  same_budgets = h.same_budgets;
  same_config = h.same_config;
  known = λ p. known-modify (record_task_start n) q p g.tier_usage (h.known p);
}
apply-HasTiers config (ended q n) g h = record {
  same_budgets = h.same_budgets;
  same_config = h.same_config;
  known = λ p. known-modify (record_task_end n) q p g.tier_usage (h.known p);
}
apply-HasTiers config (spent q n) g h = record {
  same_budgets = h.same_budgets;
  same_config = h.same_config;
  known = λ p. known-modify (record_tokens n) q p g.tier_usage (h.known p);
}
apply-HasTiers config hourly g h = record {
  same_budgets = h.same_budgets;
  same_config = h.same_config;
  known = λ p.
      let (u, here) = h.known p in
      (reset_tokens u, ground (arith, lookup-reset_all p g.tier_usage));
}

lookup-new_usage :
    (config : GovernorConfig) (p : Priority) → lookup p (new config).tier_usage ≡ some new_usage
unfolding new insert lookup
lookup-new_usage config p0_critical = refl
lookup-new_usage config p1_normal = refl
lookup-new_usage config p2_background = refl

pub history-HasTiers :
    (config : GovernorConfig) (ops : List Op) → HasTiers config (history config ops)
unfolding history new
history-HasTiers config [] = record {
  same_budgets = refl;
  same_config = refl;
  known = λ p. (new_usage, lookup-new_usage config p);
}
history-HasTiers config (op ∷ ops) =
    apply-HasTiers config op (history config ops) (history-HasTiers config ops)
