-- ===== src/Boot/Examples.antt =====
-- The daemon as it boots, and the theorems about src/main.rs at it.
use aros_kernel.Prelude.{ℕ, ◌≡◌, refl, arith}
use aros_kernel.Prelude.Map.{lookup, insert}
use aros_kernel.Prelude.Result.{ok, err}
use aros_kernel.Supervisor.Process.{
  init, kernel, loop0_meta, loop1_agentic, loop2_harness, model_adapter, embedding_adapter, id_eq,
  running, starting, stopped, invalid_transition,
}
use aros_kernel.Supervisor.Kernel.{KernelSupervisor, new, new_handle, register, refresh_health}
use aros_kernel.Boot.{register_all, boot_sequence, graceful_shutdown}
use aros_kernel.Boot.Order.{EveryChild, NotStopped, boot_runs_all, shutdown_stops_all}

abbrev clock : ℕ → ℕ
clock i = i

abbrev registered : KernelSupervisor
registered = register_all clock (new 0)

all_starting : EveryChild (λ s. s ≡ starting) registered
unfolding register_all register new refresh_health insert lookup new_handle
all_starting init = (_, refl, refl)
all_starting kernel = (_, refl, refl)
all_starting loop0_meta = (_, refl, refl)
all_starting loop1_agentic = (_, refl, refl)
all_starting loop2_harness = (_, refl, refl)
all_starting model_adapter = (_, refl, refl)
all_starting embedding_adapter = (_, refl, refl)

none_stopped : EveryChild NotStopped registered
none_stopped id = let (h, here, s) = all_starting id in (h, here, λ e. ground arith)

boot_runs_all_example :
    ((boot_sequence clock 7 registered).0 ≡ ok tt)
    × EveryChild (λ s. s ≡ running) (boot_sequence clock 7 registered).1
boot_runs_all_example = boot_runs_all clock 7 registered none_stopped

shutdown_stops_all_example :
    ((graceful_shutdown clock 7 registered).0 ≡ ok tt)
    × EveryChild (λ s. s ≡ stopped) (graceful_shutdown clock 7 registered).1
    × (boot_sequence clock 21 (graceful_shutdown clock 7 registered).1
        ≡ (err (invalid_transition init stopped running), (graceful_shutdown clock 7 registered).1))
shutdown_stops_all_example =
    shutdown_stops_all clock 7 21 registered
      (λ id. let (h, here, s) = all_starting id in (h, here, tt))
