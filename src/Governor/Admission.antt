-- ===== src/Governor/Admission.antt =====
-- Phase 1 of src/governor/governor.rs: what an admission promises.
use aros_kernel.Prelude.{
  ℕ, ◌+◌, ◌≤◌, ◌<◌, ◌≡◌, ◌↔◌, inl, inr, false, ◌&&◌, some, arith, Option-cases, u32_max,
}
use aros_kernel.Prelude.Map.{lookup, lookup-modify}
use aros_kernel.Envelope.{Priority, priority_eq}
use aros_kernel.Hardware.Pressure.{critical, level_eq}
use aros_kernel.Governor.Budget.{TierBudget, TierUsage, record_task_start, record_task_end}
use aros_kernel.Governor.Decision.{admitted}
use aros_kernel.Governor.{
  ResourceGovernor, decide_admission, check_admission, task_started, task_ended,
}
use aros_kernel.Governor.Within.{
  allocated, total_rss_exact, ceiling_exact, sum-modify, rss-le-sum, TierWithin, IsWithin,
}

-- The conditions on which a task may start, in plain arithmetic.
pub record HasRoom (g : ResourceGovernor) (b : TierBudget) (u : TierUsage) (rss_mb tokens : ℕ)
    : Type 0 where
  pub not_shed : (level_eq g.pressure_level critical && b.sheddable) ≡ false
  pub slot : u.active_tasks < b.max_concurrent
  pub tokens_left : u.tokens_used_this_hour + tokens ≤ b.max_tokens_per_hour
  pub tier_memory : u.rss_allocated_mb + rss_mb ≤ b.max_rss_mb
  pub system_memory : allocated g + rss_mb + g.config.headroom_mb ≤ g.config.system_rss_ceiling_mb

module _ (g : ResourceGovernor) (w : IsWithin g) (rss_mb tokens : ℕ) (r : rss_mb ≤ u32_max) where
  decide_admission_iff :
      (b : TierBudget) (u : TierUsage)
      → TierWithin b u
      → (decide_admission g b u rss_mb tokens ≡ admitted) ↔ HasRoom g b u rss_mb tokens
  unfolding decide_admission
  decide_admission_iff b u t =
      let total = total_rss_exact g (omega arith) in
      let top = ceiling_exact g.config w.headroom w.ceiling_fits in
      (λ h. ground arith, λ h. ground arith)

-- The tier is known, and a task of this size has room in it.
pub record MayStart (g : ResourceGovernor) (p : Priority) (rss_mb tokens : ℕ) : Type 0 where
  pub budget : TierBudget
  pub usage : TierUsage
  pub has_budget : lookup p g.tier_budgets ≡ some budget
  pub has_usage : lookup p g.tier_usage ≡ some usage
  pub room : HasRoom g budget usage rss_mb tokens

-- While no slots and no memory are overdrawn, `check_admission` answers `Admitted` exactly if the
-- tier is known, it is not being shed, and the slot, the tokens, the memory of the tier and the
-- memory of the system above the reserved headroom suffice for the task. No sum wraps around. This
-- holds of every tier, so that a critical task without room is refused as well.
pub check_admission_iff :
    (g : ResourceGovernor) (p : Priority) (rss_mb tokens : ℕ)
    → IsWithin g
    → rss_mb ≤ u32_max
    → (check_admission p rss_mb tokens g ≡ admitted) ↔ MayStart g p rss_mb tokens
unfolding check_admission
check_admission_iff g p rss_mb tokens w r = (to, from)
  where
    to : check_admission p rss_mb tokens g ≡ admitted → MayStart g p rss_mb tokens
    to h = elim (Option-cases (lookup p g.tier_budgets)) [
      | inl gone ↦ absurd (ground arith)
      | inr (b, has_b) ↦ elim (Option-cases (lookup p g.tier_usage)) [
        | inl gone ↦ absurd (ground arith)
        | inr (u, has_u) ↦ record {
          budget = b;
          usage = u;
          has_budget = has_b;
          has_usage = has_u;
          room =
              (decide_admission_iff g w rss_mb tokens r b u (w.tiers p b u has_b has_u)).0
                (ground arith);
        }
      ]
    ]

    from : MayStart g p rss_mb tokens → check_admission p rss_mb tokens g ≡ admitted
    from m = ground (
      arith,
      (decide_admission_iff g w rss_mb tokens r m.budget m.usage
            (w.tiers p m.budget m.usage m.has_budget m.has_usage)).1
          m.room,
    )

-- A task that is started after it was admitted overdraws nothing: the tiers and the system stay
-- within their limits.
pub admit_start-IsWithin :
    (g : ResourceGovernor) (p : Priority) (rss_mb tokens : ℕ)
    → IsWithin g
    → rss_mb ≤ u32_max
    → check_admission p rss_mb tokens g ≡ admitted
    → IsWithin (task_started p rss_mb g)
unfolding task_started record_task_start
admit_start-IsWithin g p rss_mb tokens w r h = record {
  headroom = w.headroom;
  ceiling_fits = w.ceiling_fits;
  total = omega (
    arith,
    sum-modify p (record_task_start rss_mb) g.tier_usage m.usage m.has_usage,
    rss-le-sum p g.tier_usage m.usage m.has_usage,
    m.room.system_memory,
    w.ceiling_fits,
  );
  tiers = λ q b u has_b has_u. elim (Option-cases (lookup q g.tier_usage)) [
    | inl gone ↦ absurd (ground (arith, lookup-modify p q (record_task_start rss_mb) g.tier_usage))
    | inr (old, here) ↦
        let t = w.tiers q b old has_b here in
        ground (
          arith,
          lookup-modify p q (record_task_start rss_mb) g.tier_usage,
          priority_eq.beq_iff p q,
          m.has_budget,
          m.has_usage,
          m.room,
        )
  ];
}
  where
    m : MayStart g p rss_mb tokens
    m = (check_admission_iff g p rss_mb tokens w r).0 h

-- The end of a task that runs leaves everything within its limits, whatever memory it gives back.
pub task_ended-IsWithin :
    (g : ResourceGovernor) (p : Priority) (rss_mb : ℕ) (u : TierUsage)
    → IsWithin g
    → lookup p g.tier_usage ≡ some u
    → 0 < u.active_tasks
    → IsWithin (task_ended p rss_mb g)
unfolding task_ended record_task_end
task_ended-IsWithin g p rss_mb u w here busy = record {
  headroom = w.headroom;
  ceiling_fits = w.ceiling_fits;
  total = omega (arith, w.total, sum-modify p (record_task_end rss_mb) g.tier_usage u here);
  tiers = λ q b v has_b has_v. elim (Option-cases (lookup q g.tier_usage)) [
    | inl gone ↦ absurd (ground (arith, lookup-modify p q (record_task_end rss_mb) g.tier_usage))
    | inr (old, here_q) ↦
        let t = w.tiers q b old has_b here_q in
        ground
          (arith, lookup-modify p q (record_task_end rss_mb) g.tier_usage, priority_eq.beq_iff p q)
  ];
}
