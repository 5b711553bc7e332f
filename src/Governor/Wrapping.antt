-- ===== src/Governor/Wrapping.antt =====
-- src/governor/governor.rs: which answers each tier can get, over every history of a governor.
use mathlib.Core.Bool.{false≢true}
use mathlib.Core.Path.{subst}
use aros_kernel.Prelude.{
  ◌∙◌, if◌then◌else◌, ℕ, ◌+◌, ◌≤◌, ◌≡◌, ◌≢◌, refl, sym, inl, inr, Bool, true, false, some, List, [],
  ◌∷◌, ◌==◌, arith, u64_max, count_if, Bool-cases,
}
use aros_kernel.Prelude.Map.{lookup, insert, modify, lookup-modify}
use aros_kernel.Envelope.{Priority, p0_critical, p1_normal, p2_background, priority_eq}
use aros_kernel.Governor.Budget.{
  TierBudget, p0_budget, p1_budget, p2_budget, TierUsage, record_task_start, record_task_end,
  record_tokens, reset_tokens,
}
use aros_kernel.Hardware.Pressure.{MemoryPressureLevel}
use aros_kernel.Governor.Decision.{AdmissionDecision, admitted, queued, throttled, shed, Reason}
use aros_kernel.Governor.{
  GovernorConfig, ResourceGovernor, new, task_started, task_ended, tokens_used, update_pressure,
  reset_hourly_tokens, check_admission, decide_admission,
}
use aros_kernel.Governor.Accounting.{Op, history, history-HasTiers, lookup-reset_all}

decide-not_shed :
    (g : ResourceGovernor) (b : TierBudget) (u : TierUsage) (rss_mb tokens : ℕ) (r : Reason)
    → b.sheddable ≡ false
    → decide_admission g b u rss_mb tokens ≢ shed r
unfolding decide_admission
decide-not_shed g b u rss_mb tokens r keep h = ground arith

abbrev budget_of : Priority → TierBudget
budget_of p0_critical = p0_budget
budget_of p1_normal = p1_budget
budget_of p2_background = p2_budget

lookup-new :
    (config : GovernorConfig) (p : Priority)
    → lookup p (new config).tier_budgets ≡ some (budget_of p)
unfolding new insert lookup
lookup-new config p0_critical = refl
lookup-new config p1_normal = refl
lookup-new config p2_background = refl

budget_of-kept : (p : Priority) → p ≢ p2_background → (budget_of p).sheddable ≡ false
budget_of-kept p0_critical kept = refl
budget_of-kept p1_normal kept = refl
budget_of-kept p2_background kept = absurd (kept refl)

-- Whatever happened before, the governor never sheds a critical or a normal task: it admits it,
-- queues it or throttles it.
pub never_shed :
    (config : GovernorConfig) (ops : List Op) (p : Priority) (rss_mb tokens : ℕ) (r : Reason)
    → p ≢ p2_background
    → check_admission p rss_mb tokens (history config ops) ≢ shed r
unfolding check_admission
never_shed config ops p rss_mb tokens r kept h =
    let t = history-HasTiers config ops in
    let (u, here) = t.known p in
    ground (
      arith,
      t.same_budgets,
      here,
      lookup-new config p,
      decide-not_shed (history config ops) (budget_of p) u rss_mb tokens r (budget_of-kept p kept),
    )

-- What is asked of a governor, one request after the other; a task starts only when it is admitted.
pub data Move : Type 0 where
  submits : (p : Priority) (rss_mb tokens : ℕ) → Move
  ends spends : (p : Priority) (amount : ℕ) → Move
  presses : MemoryPressureLevel → Move
  resets : Move

abbrev started_if : Priority → ℕ → AdmissionDecision → ResourceGovernor → ResourceGovernor
started_if p rss_mb admitted g = task_started p rss_mb g
started_if p rss_mb _ g = g

abbrev pub moved : Move → ResourceGovernor → ResourceGovernor
moved (submits p rss_mb tokens) g = started_if p rss_mb (check_admission p rss_mb tokens g) g
moved (ends p amount) g = task_ended p amount g
moved (spends p amount) g = tokens_used p amount g
moved (presses level) g = update_pressure level g
moved resets g = reset_hourly_tokens g

abbrev pub moved_all : List Move → ResourceGovernor → ResourceGovernor
moved_all [] g = g
moved_all (m ∷ ms) g = moved_all ms (moved m g)

-- How many ends there are in the tier.
abbrev is_end : Priority → Move → Bool
is_end p (ends q amount) = q == p
is_end p _ = false

abbrev pub ends_in : Priority → List Move → ℕ
ends_in p ms = count_if (is_end p) ms

-- A tier with the budget `b` that counts at least `n` tasks.
record Counts (p : Priority) (b : TierBudget) (n : ℕ) (g : ResourceGovernor) : Type 0 where
  has_budget : lookup p g.tier_budgets ≡ some b
  usage : TierUsage
  has_usage : lookup p g.tier_usage ≡ some usage
  counted : n ≤ usage.active_tasks
  counts_fit : usage.active_tasks ≤ u64_max

full-not_admitted :
    (p : Priority) (b : TierBudget) (n : ℕ) (g : ResourceGovernor) (rss_mb tokens : ℕ)
    → Counts p b n g
    → b.max_concurrent ≤ n
    → check_admission p rss_mb tokens g ≢ admitted
unfolding check_admission decide_admission
full-not_admitted p b n g rss_mb tokens c full h =
    ground (arith, c.has_budget, c.has_usage, c.counted)

started_if-other :
    (p : Priority) (rss_mb : ℕ) (d : AdmissionDecision) (g : ResourceGovernor)
    → d ≢ admitted
    → started_if p rss_mb d g ≡ g
started_if-other p rss_mb d g other = ground (arith, other)

module _ (p : Priority) (b : TierBudget) (n : ℕ) (g : ResourceGovernor) where
  -- A write to the counters of one tier.
  Counts-modify :
      (q : Priority) (f : TierUsage → TierUsage) (k : ℕ)
      → Counts p b n g
      → ((u : TierUsage)
          → n ≤ u.active_tasks
          → u.active_tasks ≤ u64_max
          → (q == p) ≡ true
          → (k ≤ (f u).active_tasks) × ((f u).active_tasks ≤ u64_max))
      → k ≤ n
      → Counts p b k (record g { tier_usage = modify q f g.tier_usage })
  Counts-modify q f k c keeps less = elim (Bool-cases (q == p)) [
    | inl same ↦
        let (low, high) = keeps c.usage c.counted c.counts_fit same in
        record {
          has_budget = c.has_budget;
          usage = f c.usage;
          has_usage = ground (arith, lookup-modify q p f g.tier_usage, c.has_usage);
          counted = low;
          counts_fit = high;
        }
    | inr other ↦ record {
      has_budget = c.has_budget;
      usage = c.usage;
      has_usage = ground (arith, lookup-modify q p f g.tier_usage, c.has_usage);
      counted = omega (arith, c.counted);
      counts_fit = c.counts_fit;
    }
  ]

  Counts-less : (k : ℕ) → Counts p b n g → k ≤ n → Counts p b k g
  Counts-less k c less = record {
    has_budget = c.has_budget;
    usage = c.usage;
    has_usage = c.has_usage;
    counted = omega (arith, c.counted);
    counts_fit = c.counts_fit;
  }

  Counts-submits :
      (q : Priority) (rss_mb tokens : ℕ)
      → Counts p b n g
      → b.max_concurrent ≤ n
      → Counts p b n (moved (submits q rss_mb tokens) g)
  unfolding task_started
  Counts-submits q rss_mb tokens c full = elim (Bool-cases (q == p)) [
    | inl same ↦
        subst (Counts p b n)
          (sym (
            started_if-other q rss_mb _ g (
              subst (λ t. check_admission t rss_mb tokens g ≢ admitted)
                (sym ((priority_eq.beq_iff q p).0 same))
                (full-not_admitted p b n g rss_mb tokens c full))))
          c
    | inr other ↦ by_decision (check_admission q rss_mb tokens g) other
  ]
    where
      by_decision :
          (d : AdmissionDecision) → (q == p) ≡ false → Counts p b n (started_if q rss_mb d g)
      by_decision admitted other =
          Counts-modify q (record_task_start rss_mb) n c
            (λ u low high same. absurd (false≢true (sym other ∙ same))) (omega arith)
      by_decision (queued r) other = c
      by_decision (throttled r) other = c
      by_decision (shed r) other = c

  Counts-resets : Counts p b n g → Counts p b n (reset_hourly_tokens g)
  unfolding reset_hourly_tokens reset_tokens
  Counts-resets c = record {
    has_budget = c.has_budget;
    usage = reset_tokens c.usage;
    has_usage = ground (arith, lookup-reset_all p g.tier_usage, c.has_usage);
    counted = c.counted;
    counts_fit = c.counts_fit;
  }

  -- A move lowers the count by one where it is an end in the tier, and never else.
  Counts-moved :
      (m : Move) (k : ℕ)
      → Counts p b n g
      → b.max_concurrent ≤ k
      → k + (if is_end p m then 1 else 0) ≤ n
      → Counts p b k (moved m g)
  unfolding task_ended tokens_used update_pressure record_task_end record_tokens
  Counts-moved (submits q rss_mb tokens) k c full less =
      Counts-less-moved (Counts-submits q rss_mb tokens c (omega arith))
    where
      Counts-less-moved : {h : ResourceGovernor} → Counts p b n h → Counts p b k h
      Counts-less-moved d = record {
        has_budget = d.has_budget;
        usage = d.usage;
        has_usage = d.has_usage;
        counted = omega (arith, d.counted);
        counts_fit = d.counts_fit;
      }
  Counts-moved (ends q amount) k c full less =
      Counts-modify q (record_task_end amount) k c (λ u low high same. (ground arith, ground arith))
        (ground arith)
  Counts-moved (spends q amount) k c full less =
      Counts-modify q (record_tokens amount) k c (λ u low high same. (omega arith, high))
        (omega arith)
  Counts-moved (presses level) k c full less = record {
    has_budget = c.has_budget;
    usage = c.usage;
    has_usage = c.has_usage;
    counted = omega (arith, c.counted);
    counts_fit = c.counts_fit;
  }
  Counts-moved resets k c full less =
      let d = Counts-resets c in
      record {
        has_budget = d.has_budget;
        usage = d.usage;
        has_usage = d.has_usage;
        counted = omega (arith, d.counted);
        counts_fit = d.counts_fit;
      }

Counts-moved_all :
    (ms : List Move) (p : Priority) (b : TierBudget) (g : ResourceGovernor)
    → Counts p b (b.max_concurrent + ends_in p ms) g
    → Counts p b b.max_concurrent (moved_all ms g)
Counts-moved_all [] p b g c = Counts-less p b _ g b.max_concurrent c (omega arith)
Counts-moved_all (m ∷ ms) p b g c =
    Counts-moved_all ms p b (moved m g)
      (Counts-moved p b _ g m (b.max_concurrent + ends_in p ms) c (omega arith) (ground arith))

-- The end of a task in a tier that runs none wraps its counter to the largest number. After that
-- the tier admits no task, of whatever size, whatever is asked meanwhile, one request after the
-- other and tasks started only when they are admitted: the tier stays closed until the further
-- ends in it are almost as many as a 64-bit counter can number.
pub closed_after_unmatched_end :
    (g : ResourceGovernor) (p : Priority) (b : TierBudget) (u : TierUsage) (freed : ℕ)
    (ms : List Move) (rss_mb tokens : ℕ)
    → lookup p g.tier_budgets ≡ some b
    → lookup p g.tier_usage ≡ some u
    → u.active_tasks ≡ 0
    → b.max_concurrent + ends_in p ms ≤ u64_max
    → ((v : TierUsage) × (lookup p (task_ended p freed g).tier_usage ≡ some v)
        × (v.active_tasks ≡ u64_max))
      × (check_admission p rss_mb tokens (moved_all ms (task_ended p freed g)) ≢ admitted)
unfolding task_ended record_task_end
closed_after_unmatched_end g p b u freed ms rss_mb tokens has_b has_u idle fits = (
  (record_task_end freed u, here, wrapped),
  full-not_admitted p b b.max_concurrent (moved_all ms (task_ended p freed g)) rss_mb tokens
      (Counts-moved_all ms p b (task_ended p freed g) counts) (omega arith),
)
  where
    here : lookup p (task_ended p freed g).tier_usage ≡ some (record_task_end freed u)
    here =
        ground
          (arith, lookup-modify p p (record_task_end freed) g.tier_usage, priority_eq.beq_iff p p)

    wrapped : (record_task_end freed u).active_tasks ≡ u64_max
    wrapped = ground arith

    counts : Counts p b (b.max_concurrent + ends_in p ms) (task_ended p freed g)
    counts = record {
      has_budget = has_b;
      usage = record_task_end freed u;
      has_usage = here;
      counted = omega (arith, wrapped);
      counts_fit = omega (arith, wrapped);
    }
