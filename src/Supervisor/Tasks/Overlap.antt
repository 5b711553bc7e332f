-- ===== src/Supervisor/Tasks/Overlap.antt =====
-- src/supervisor/handler.rs: two submissions at once. A submission asks the governor for a decision
-- and starts the task in a second step, and nothing is locked between the two.
use mathlib.Core.Path.{subst}
use aros_kernel.Prelude.{suc, ◌≤◌, ◌≡◌, refl, ap, ◌∙◌, some, arith, u32_max}
use aros_kernel.Prelude.Map.{lookup, lookup-modify}
use aros_kernel.Prelude.Result.{Result, ok}
use aros_kernel.Envelope.{TaskEnvelope, priority_eq}
use aros_kernel.Governor.{ResourceGovernor, task_started}
use aros_kernel.Governor.Budget.{TierUsage, record_task_start}
use aros_kernel.Governor.Decision.{admitted}
use aros_kernel.Governor.Within.{IsWithin, TierWithin}
use aros_kernel.Governor.Admission.{MayStart, check_admission_iff}
use aros_kernel.Supervisor.Tasks.{
  KernelRequestHandler, Reply, RpcError, Json, answer, task_admitted,
}
use aros_kernel.Supervisor.Tasks.Requests.{decision_on}

module _ {Value : Type 0} (json : Json Value) (h : KernelRequestHandler) (d e : TaskEnvelope) where
  -- Both decisions are taken before either task is started.
  abbrev pub first_answer : Result Reply RpcError × KernelRequestHandler
  first_answer = answer json d h (decision_on d h.governor)

  abbrev pub second_answer : Result Reply RpcError × KernelRequestHandler
  second_answer = answer json e first_answer.1 (decision_on e h.governor)

  started_twice :
      (g : ResourceGovernor) (u : TierUsage)
      → lookup d.priority g.tier_usage ≡ some u
      → lookup d.priority
          (task_started d.priority e.resource_budget.max_rss_mb
            (task_started d.priority d.resource_budget.max_rss_mb g)).tier_usage
        ≡ some (
            record_task_start e.resource_budget.max_rss_mb
              (record_task_start d.resource_budget.max_rss_mb u))
  unfolding task_started
  started_twice g u here = ground (
    arith,
    lookup-modify d.priority d.priority (record_task_start d.resource_budget.max_rss_mb)
        g.tier_usage,
    lookup-modify d.priority d.priority (record_task_start e.resource_budget.max_rss_mb)
        (task_started d.priority d.resource_budget.max_rss_mb g).tier_usage,
    priority_eq.beq_iff d.priority d.priority,
  )

  abbrev both_started : ResourceGovernor
  both_started =
      task_started e.priority e.resource_budget.max_rss_mb
        (task_started d.priority d.resource_budget.max_rss_mb h.governor)

  first_admitted :
      decision_on d h.governor ≡ admitted
      → first_answer ≡ (
        ok (task_admitted d.task_id),
        record h { governor = task_started d.priority d.resource_budget.max_rss_mb h.governor },
      )
  unfolding answer
  first_admitted let_d = ap (answer json d h) let_d

  both_admitted :
      decision_on d h.governor ≡ admitted
      → decision_on e h.governor ≡ admitted
      → second_answer ≡ (ok (task_admitted e.task_id), record h { governor = both_started })
  unfolding answer
  both_admitted let_d let_e =
      ap (λ r. answer json e r.1 (decision_on e h.governor)) (first_admitted let_d)
      ∙ ap
          (answer json e (record h {
            governor = task_started d.priority d.resource_budget.max_rss_mb h.governor;
          }))
          let_e

  budgets_kept : both_started.tier_budgets ≡ h.governor.tier_budgets
  unfolding task_started
  budgets_kept = refl

  -- Two submissions in one tier whose decisions are both taken before either task is started can
  -- overdraw it: where each of the two may start and the tier, not overdrawn so far, has one slot
  -- left, both are admitted, and then the tier runs one task more than it may.
  pub overlapping_submissions :
      (fits_d : d.resource_budget.max_rss_mb ≤ u32_max)
      (fits_e : e.resource_budget.max_rss_mb ≤ u32_max) (within : IsWithin h.governor)
      (may_d : MayStart h.governor d.priority d.resource_budget.max_rss_mb
        d.resource_budget.max_tokens)
      (may_e : MayStart h.governor e.priority e.resource_budget.max_rss_mb
        e.resource_budget.max_tokens)
      → e.priority ≡ d.priority
      → suc may_d.usage.active_tasks ≡ may_d.budget.max_concurrent
      → (first_answer.0 ≡ ok (task_admitted d.task_id))
        × (second_answer.0 ≡ ok (task_admitted e.task_id))
        × ((v : TierUsage) × (lookup d.priority second_answer.1.governor.tier_usage ≡ some v)
            × (v.active_tasks ≡ suc may_d.budget.max_concurrent))
        × ¬ IsWithin second_answer.1.governor
  unfolding record_task_start
  overlapping_submissions fits_d fits_e within may_d may_e same last = (
    ap (λ r. r.0) (first_admitted let_d),
    ap (λ r. r.0) (both_admitted let_d let_e),
    (
      v,
      ap (λ r. lookup d.priority r.1.governor.tier_usage) (both_admitted let_d let_e) ∙ here,
      one_more,
    ),
    λ w.
        let over =
          (subst (λ r. IsWithin r.1.governor) (both_admitted let_d let_e) w).tiers d.priority
            may_d.budget v (ap (lookup d.priority) budgets_kept ∙ may_d.has_budget) here in
        omega (arith, over.active, one_more),
  )
    where
      let_d : decision_on d h.governor ≡ admitted
      let_d =
          (check_admission_iff h.governor d.priority d.resource_budget.max_rss_mb
              d.resource_budget.max_tokens within fits_d).1
            may_d

      let_e : decision_on e h.governor ≡ admitted
      let_e =
          (check_admission_iff h.governor e.priority e.resource_budget.max_rss_mb
              e.resource_budget.max_tokens within fits_e).1
            may_e

      v : TierUsage
      v =
          record_task_start e.resource_budget.max_rss_mb
            (record_task_start d.resource_budget.max_rss_mb may_d.usage)

      tier : TierWithin may_d.budget may_d.usage
      tier = within.tiers d.priority may_d.budget may_d.usage may_d.has_budget may_d.has_usage

      one_more : v.active_tasks ≡ suc may_d.budget.max_concurrent
      one_more = ground (arith, tier.concurrent_fits)

      here : lookup d.priority both_started.tier_usage ≡ some v
      here =
          ap
            (λ p.
              lookup d.priority
                (task_started p e.resource_budget.max_rss_mb
                  (task_started d.priority d.resource_budget.max_rss_mb h.governor)).tier_usage)
            same
          ∙ started_twice h.governor may_d.usage may_d.has_usage
