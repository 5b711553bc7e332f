-- ===== src/Scheduler/Examples.antt =====
-- Two running agents on a small machine, and the theorems about src/scheduler at them.
use aros_kernel.Prelude.{ℕ, suc, ◌+◌, ◌<◌, ◌*◌, ◌≤◌, ◌≡◌, ◌⊎◌, refl, true, false, [], ◌∷◌, arith}
use aros_kernel.Prelude.Float.{finite}
use aros_kernel.Hardware.{SystemResources}
use aros_kernel.Hardware.Pressure.{warn}
use aros_kernel.Hardware.Thermal.{fair}
use aros_kernel.Scheduler.Allocator.{ResourceAllocator, claude_cli, shell, Holds}
use aros_kernel.Scheduler.Admission.{AdmissionController, can_schedule}
use aros_kernel.Scheduler.Recommender.{
  with_defaults, recommend_max_agents, recommend_max_agents_thermal,
}
use aros_kernel.Scheduler.Recommender.Fit.{reserve, cooled, recommended_fit}

abbrev two_agents : ResourceAllocator
two_agents = record { allocated_cpu = 700; allocated_memory = 300; active_agents = 2 }

two_agents-Holds : Holds (claude_cli ∷ shell ∷ []) two_agents
two_agents-Holds = record {
  cpu = refl;
  memory = refl;
  count = refl;
  cpu_fits = omega arith;
  memory_fits = omega arith;
  count_fits = omega arith;
}

abbrev controller : AdmissionController
controller = record { max_agents_hard_limit = 5 }

scheduled : can_schedule controller claude_cli two_agents warn 4000 8000 ≡ true
unfolding can_schedule
scheduled = refl

abbrev laptop : SystemResources
laptop = record {
  cpu_count = 8;
  ram_total_mb = 16384;
  ram_available_mb = 9000;
  load_avg_1 = finite false 1 0;
  load_avg_5 = finite false 1 0;
  load_avg_15 = finite false 1 0;
}

recommended_fit_example :
    let n = recommend_max_agents with_defaults laptop warn 250 in
    (n ≤ 8 * 2)
    × ((◌≡◌ {A = ℕ} 0 0) ⊎ (n ≤ 0))
    × ((n ≡ 0) ⊎ (n * 250 + reserve warn 2048 ≤ 9000))
    × ((8 * 2 < suc n) ⊎ (9000 < suc n * 250 + reserve warn 2048) ⊎ ((0 < 0) × (0 < suc n)))
    × (recommend_max_agents_thermal with_defaults laptop warn fair 250 ≡ cooled fair n)
recommended_fit_example =
    recommended_fit with_defaults laptop warn fair 250 (omega arith) (omega arith) (omega arith)
      (omega arith)
