-- ===== src/Supervisor/Kernel/Agreement.antt =====
-- src/supervisor/kernel.rs: `all_healthy` and the reported health agree.
use aros_kernel.Prelude.{
  ℕ, ◌≡◌, ◌≢◌, ◌↔◌, refl, true, List, [], ◌∷◌, map, all, arith, List-cases, inl, inr,
}
use aros_kernel.Prelude.Map.{values}
use aros_kernel.Supervisor.Process.{ChildHandle}
use aros_kernel.Supervisor.Health.{healthy, is_running, level_of, compute}
use aros_kernel.Supervisor.Kernel.{
  KernelSupervisor, health, health_of, refresh_health, all_healthy, is_child_running,
}

all-health_of :
    (now : ℕ) (hs : List ChildHandle)
    → all is_running (map (health_of now) hs) ≡ all is_child_running hs
unfolding is_running health_of is_child_running
all-health_of now [] = refl
all-health_of now (h ∷ hs) = ground (arith, all-health_of now hs)

level_of-none : level_of [] ≡ healthy
unfolding level_of
level_of-none = refl

level_of-children :
    (now : ℕ) (h : ChildHandle) (hs : List ChildHandle)
    → (level_of (map (health_of now) (h ∷ hs)) ≡ healthy) ↔ (all is_child_running (h ∷ hs) ≡ true)
unfolding level_of
level_of-children now h hs = ground (arith, all-health_of now (h ∷ hs))

-- The supervisor says that all is healthy exactly where it watches a process and reports the
-- level healthy.
pub all_healthy_iff_level :
    (now : ℕ) (sv : KernelSupervisor)
    → (all_healthy sv ≡ true) ↔ ((values sv.children ≢ []) × ((health now sv).0.status ≡ healthy))
unfolding all_healthy health refresh_health compute
all_healthy_iff_level now sv = elim (List-cases (values sv.children)) [
  | inl none_left ↦ rw none_left (ground (arith, level_of-none))
  | inr (h, hs, some_left) ↦ rw some_left (ground (arith, level_of-children now h hs))
]
