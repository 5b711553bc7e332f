-- ===== src/Governor/Decision.antt =====
-- src/governor/admission.rs: the answers of the governor. The text of a reason is a case with the
-- numbers that the text shows.
use aros_kernel.Prelude.{ℕ}

pub data Reason : Type 0 where
  unknown_tier critical_pressure : Reason
  concurrent_limit : (active max_concurrent : ℕ) → Reason
  token_budget : (used max : ℕ) → Reason
  tier_rss_limit : (used asked max : ℕ) → Reason
  system_rss_ceiling : (total asked ceiling : ℕ) → Reason

pub data AdmissionDecision : Type 0 where
  admitted : AdmissionDecision
  queued throttled shed : Reason → AdmissionDecision

pub data RuntimeReason : Type 0 where
  runtime_unknown_tier runtime_critical_pressure elevated_pressure : RuntimeReason
  token_budget_exceeded approaching_budget : (used max : ℕ) → RuntimeReason

pub data RuntimeDecision : Type 0 where
  continue : RuntimeDecision
  warning exceeded : RuntimeReason → RuntimeDecision
