-- ===== src/Supervisor/Triggers/Routing.antt =====
-- src/supervisor/handler.rs: which triggers are let through, and what they do.
use mathlib.Core.Path.{subst}
use aros_kernel.Prelude.{
  ℕ, ◌≡◌, ◌≢◌, ◌↔◌, ◌⊎◌, inl, inr, refl, sym, ◌∙◌, Bool, true, false, not, ◌&&◌, some, List, [],
  ◌∷◌, map, any, any_iff, arith, ◌==◌, string_eq, Bool-cases,
}
use aros_kernel.Prelude.Map.{lookup, values, UniqueKeys, lookup_of_In-values, In-values_of_lookup}
use aros_kernel.Prelude.Result.{ok, err}
use aros_kernel.Dispatch.Contracts.{LoopTrigger}
use aros_kernel.Store.Acl.{StateStore}
use aros_kernel.Supervisor.Process.{ProcessId, id_eq, kernel, running, state_eq, ChildHandle}
use aros_kernel.Supervisor.Health.{HealthStatus, compute}
use aros_kernel.Supervisor.Kernel.{KernelSupervisor, health, health_of, refresh_health}
use aros_kernel.Supervisor.Kernel.Update.{ChildIn}
use aros_kernel.Supervisor.Triggers.{
  Kernel, source_not_running, target_not_running, TriggerJson, is_live, route, check_route,
  handle_loop_trigger,
}

-- A process is watched once, under its own identifier.
pub record WellKeyed (sv : KernelSupervisor) : Type 0 where
  pub unique : UniqueKeys sv.children
  pub named : (id : ProcessId) (h : ChildHandle) → lookup id sv.children ≡ some h → h.id ≡ id

abbrev running_child : ProcessId → ChildHandle → Bool
running_child id h = h.id == id && state_eq h.state running

is_live-children :
    (id : ProcessId) (now : ℕ) (sv : KernelSupervisor)
    → is_live id (health now sv).0 ≡ any (running_child id) (values sv.children)
unfolding is_live health refresh_health compute health_of
is_live-children id now sv = go (values sv.children)
  where
    go :
        (hs : List ChildHandle)
        → any (λ p. p.id == id && state_eq p.state running) (map (health_of now) hs)
          ≡ any (running_child id) hs
    go [] = refl
    go (h ∷ hs) = ground (arith, go hs)

-- What the reported health says of a process is its state.
pub is_live_iff :
    (id : ProcessId) (now : ℕ) (sv : KernelSupervisor)
    → WellKeyed sv
    → (is_live id (health now sv).0 ≡ true) ↔ ChildIn running id sv
is_live_iff id now sv w = (to, from)
  where
    seen : (h : ChildHandle) → running_child id h ≡ true → (h.id ≡ id) × (h.state ≡ running)
    seen h e = ground (arith, id_eq.beq_iff h.id id)

    to : is_live id (health now sv).0 ≡ true → ChildIn running id sv
    to live =
        let (h, here, holds) =
          (any_iff (running_child id) (values sv.children)).0
            (sym (is_live-children id now sv) ∙ live) in
        let (k, there) = lookup_of_In-values sv.children h w.unique here in
        let (named, runs) = seen h holds in
        record {
          child = h;
          found =
              subst (λ x. lookup x sv.children ≡ some h) (sym (w.named k h there) ∙ named) there;
          state_is = runs;
        }

    both : (h : ChildHandle) → h.id ≡ id → h.state ≡ running → running_child id h ≡ true
    both h e r = ground (arith, id_eq.beq_iff h.id id)

    from : ChildIn running id sv → is_live id (health now sv).0 ≡ true
    from c =
        is_live-children id now sv
        ∙ (any_iff (running_child id) (values sv.children)).1 (
          c.child,
          In-values_of_lookup id sv.children c.child c.found,
          both c.child (w.named id c.child c.found) c.state_is,
        )

-- The handler after it has read the health.
abbrev pub checked : {S : Type 0} → ℕ → Kernel S → Kernel S
checked now k = record k { supervisor = refresh_health now k.supervisor }

module _ {S Value : Type 0} (store : StateStore S) (wire : TriggerJson Value) where
  module _ (now : ℕ) (v : Value) (t : LoopTrigger Value) (k : Kernel S)
      (read : wire.decode_trigger v ≡ ok t) where
    source_off :
        is_live t.source (health now k.supervisor).0 ≡ false
        → handle_loop_trigger store wire now (some v) k
          ≡ (err (source_not_running t.source), checked now k)
    unfolding handle_loop_trigger check_route health
    source_off off = rw (read, handle_loop_trigger, off) refl

    target_off :
        is_live t.source (health now k.supervisor).0 ≡ true
        → (t.target == kernel) ≡ false
        → is_live t.target (health now k.supervisor).0 ≡ false
        → handle_loop_trigger store wire now (some v) k
          ≡ (err (target_not_running t.target), checked now k)
    unfolding handle_loop_trigger check_route health
    target_off on other off = rw (read, handle_loop_trigger, on, other, off) refl

    through :
        is_live t.source (health now k.supervisor).0 ≡ true
        → (not (t.target == kernel) && not (is_live t.target (health now k.supervisor).0)) ≡ false
        → handle_loop_trigger store wire now (some v) k ≡ route store wire t (checked now k)
    unfolding handle_loop_trigger check_route health
    through on open_way = rw (read, handle_loop_trigger, on, open_way) refl

  off_is_not :
      (id : ProcessId) (now : ℕ) (sv : KernelSupervisor)
      → WellKeyed sv
      → is_live id (health now sv).0 ≡ false
      → ¬ (ChildIn running id sv)
  off_is_not id now sv w off c = ground (arith, (is_live_iff id now sv w).1 c)

  -- A trigger that can be read is refused if its source does not run, or if its target is another
  -- process than the kernel and does not run; a refusal only refreshes the reported health. Every
  -- other trigger is routed by its kind. The supervisor watches each process once.
  pub handle_loop_trigger_outcomes :
      (now : ℕ) (v : Value) (t : LoopTrigger Value) (k : Kernel S)
      → wire.decode_trigger v ≡ ok t
      → WellKeyed k.supervisor
      → (¬ (ChildIn running t.source k.supervisor)
          × (handle_loop_trigger store wire now (some v) k
              ≡ (err (source_not_running t.source), checked now k)))
        ⊎ (ChildIn running t.source k.supervisor
            × (t.target ≢ kernel)
            × ¬ (ChildIn running t.target k.supervisor)
            × (handle_loop_trigger store wire now (some v) k
                ≡ (err (target_not_running t.target), checked now k)))
        ⊎ (ChildIn running t.source k.supervisor
            × ((t.target ≡ kernel) ⊎ ChildIn running t.target k.supervisor)
            × (handle_loop_trigger store wire now (some v) k ≡ route store wire t (checked now k)))
  handle_loop_trigger_outcomes now v t k read w = elim (Bool-cases (is_live t.source h)) [
    | inr off ↦ inl (off_is_not t.source now k.supervisor w off, source_off now v t k read off)
    | inl on ↦ elim (Bool-cases (t.target == kernel)) [
      | inl own ↦ inr (
          inr (
            (is_live_iff t.source now k.supervisor w).0 on,
            inl ((id_eq.beq_iff t.target kernel).0 own),
            through now v t k read on (rw own refl),
          ))
      | inr other ↦ elim (Bool-cases (is_live t.target h)) [
        | inl live ↦ inr (
            inr (
              (is_live_iff t.source now k.supervisor w).0 on,
              inr ((is_live_iff t.target now k.supervisor w).0 live),
              through now v t k read on (rw (other, live) refl),
            ))
        | inr off ↦ inr (
            inl (
              (is_live_iff t.source now k.supervisor w).0 on,
              (λ e. ground (arith, id_eq.beq_iff t.target kernel)),
              off_is_not t.target now k.supervisor w off,
              target_off now v t k read on other off,
            ))
      ]
    ]
  ]
    where
      h : HealthStatus
      h = (health now k.supervisor).0
