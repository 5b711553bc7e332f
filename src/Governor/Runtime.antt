-- ===== src/Governor/Runtime.antt =====
-- src/governor/governor.rs: the answers of `check_runtime`.
use aros_kernel.Prelude.{ℕ, ◌≤◌, ◌≡◌, arith, Option-cases, inl, inr}
use aros_kernel.Prelude.Map.{lookup}
use aros_kernel.Envelope.{Priority, p0_critical, priority_eq}
use aros_kernel.Hardware.Pressure.{MemoryPressureLevel, severity}
use aros_kernel.Governor.Decision.{RuntimeDecision, continue, warning, exceeded}
use aros_kernel.Governor.{ResourceGovernor, update_pressure, check_runtime}

abbrev pub rank : RuntimeDecision → ℕ
rank continue = 0
rank (warning r) = 1
rank (exceeded r) = 2

-- A task that used more tokens, or runs under more pressure, never gets a milder answer, where a
-- go-ahead is milder than a warning and a warning is milder than an excess.
pub check_runtime_monotone :
    (g : ResourceGovernor) (p : Priority) (used used' : ℕ) (level level' : MemoryPressureLevel)
    → used ≤ used'
    → severity level ≤ severity level'
    → rank (check_runtime p used (update_pressure level g))
      ≤ rank (check_runtime p used' (update_pressure level' g))
unfolding check_runtime update_pressure
check_runtime_monotone g p used used' level level' more worse =
    elim (Option-cases (lookup p g.tier_budgets)) [
      | inl gone ↦ ground arith
      | inr (b, here) ↦ ground arith
    ]

-- The pressure changes no answer that a critical task gets while it runs.
pub check_runtime_critical :
    (g : ResourceGovernor) (used : ℕ) (level : MemoryPressureLevel)
    → check_runtime p0_critical used (update_pressure level g) ≡ check_runtime p0_critical used g
unfolding check_runtime update_pressure
check_runtime_critical g used level = ground arith
