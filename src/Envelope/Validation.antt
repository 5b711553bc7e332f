-- ===== src/Envelope/Validation.antt =====
-- What `validate` of src/envelope/task_envelope.rs accepts.
use aros_kernel.Prelude.{ℕ, ◌≤◌, ◌^◌, ◌⊎◌, inl, inr, ◌<◌, ◌≡◌, ◌≢◌, ◌↔◌, true, false, refl, arith}
use aros_kernel.Prelude.Float.{F64, nan, infinite, finite, below_zero, above_one}
use aros_kernel.Prelude.Result.{ok}
use aros_kernel.Envelope.{TaskEnvelope, validate, is_token_budget_warning, warning_threshold}
use text.Mathlib.TextEquality.{eq_iff}

-- A number from 0 to 1: m / 2 ^ e with m at most 2 ^ e, or a zero of either sign.
abbrev pub IsShare : F64 → Type 0
IsShare nan = ⊥
IsShare (infinite negative) = ⊥
IsShare (finite true m e) = m ≡ 0
IsShare (finite false m e) = m ≤ 2 ^ e

-- The fields are filled, the version is the current one, every budget is positive, and the warning
-- threshold is from 0 to 1 or not a number.
pub record IsWellFormed (e : TaskEnvelope) : Type 0 where
  pub named : e.task_id ≢ ""
  pub owned : e.parent_dag_id ≢ ""
  pub current : e.envelope_version ≡ 1
  pub threshold :
      IsShare e.resource_budget.budget_warning_threshold
      ⊎ (e.resource_budget.budget_warning_threshold ≡ nan)
  pub tokens : 0 < e.resource_budget.max_tokens
  pub rss : 0 < e.resource_budget.max_rss_mb
  pub wall_time : 0 < e.resource_budget.max_wall_time

-- The two comparisons of `validate` with a threshold.
range_iff : (t : F64) → ((below_zero t ≡ false) × (above_one t ≡ false)) ↔ (IsShare t ⊎ (t ≡ nan))
unfolding below_zero above_one
range_iff nan = (λ h. inr refl, λ h. (refl, refl))
range_iff (infinite true) =
    (λ h. absurd (ground arith), λ h. absurd (elim h [ inl x ↦ x | inr x ↦ ground arith ]))
range_iff (infinite false) =
    (λ h. absurd (ground arith), λ h. absurd (elim h [ inl x ↦ x | inr x ↦ ground arith ]))
range_iff (finite true m e) =
    (λ h. inl (ground arith), λ h. elim h [ inl x ↦ ground arith | inr x ↦ absurd (ground arith) ])
range_iff (finite false m e) =
    (λ h. inl (ground arith), λ h. elim h [ inl x ↦ ground arith | inr x ↦ absurd (ground arith) ])

-- `validate` accepts exactly the envelopes whose identifiers are filled, whose version is 1, whose
-- budgets of tokens, memory and time are positive, and whose warning threshold is from 0 to 1 or,
-- against its error text, not a number.
pub validate_iff : (e : TaskEnvelope) → (validate e ≡ ok tt) ↔ IsWellFormed e
unfolding validate
validate_iff e = (
  λ h. record {
    named = λ q. ground (arith, eq_iff e.task_id "");
    owned = λ q. ground (arith, eq_iff e.parent_dag_id "");
    current = ground arith;
    threshold =
        (range_iff e.resource_budget.budget_warning_threshold).0 (ground arith, ground arith);
    tokens = ground arith;
    rss = ground arith;
    wall_time = ground arith;
  },
  λ w.
      let (low, high) = (range_iff e.resource_budget.budget_warning_threshold).1 w.threshold in
      ground (
        arith,
        w.named,
        w.owned,
        w.current,
        w.tokens,
        w.rss,
        w.wall_time,
        eq_iff e.task_id "",
        eq_iff e.parent_dag_id "",
      ),
)

-- A warning threshold that is not a number passes `validate` if the rest of the envelope is in
-- order, and then every use of tokens counts as a warning, even none.
pub nan_threshold_accepted :
    (e : TaskEnvelope)
    → e.resource_budget.budget_warning_threshold ≡ nan
    → e.task_id ≢ ""
    → e.parent_dag_id ≢ ""
    → e.envelope_version ≡ 1
    → 0 < e.resource_budget.max_tokens
    → 0 < e.resource_budget.max_rss_mb
    → 0 < e.resource_budget.max_wall_time
    → (validate e ≡ ok tt) × ((used : ℕ) → is_token_budget_warning e used ≡ true)
unfolding is_token_budget_warning warning_threshold
nan_threshold_accepted e t named owned current tokens rss wall = (
  (validate_iff e).1 (record {
    named = named;
    owned = owned;
    current = current;
    threshold = inr t;
    tokens = tokens;
    rss = rss;
    wall_time = wall;
  }),
  λ used. rw t (ground arith),
)
