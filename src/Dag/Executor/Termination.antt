-- ===== src/Dag/Executor/Termination.antt =====
-- The loop of `run` in src/dag/executor.rs ends.
use mathlib.Core.Bool.{false≢true}
use aros_kernel.Prelude.{
  ℕ, zero, suc, ◌<◌, ◌≡◌, refl, inl, inr, true, false, ◌&&◌, none, some, List, [], ◌∷◌, ◌∙◌, ap,
  sym, arith, Bool-cases, if◌then◌else◌,
}
use aros_kernel.Prelude.Result.{Result, ok, err}
use aros_kernel.Dag.Graph.{Node, DagGraph, ready_nodes, is_complete, has_failed}
use aros_kernel.Dag.Graph.Mutation.{IsValid}
use aros_kernel.Dag.Executor.{
  Joined, ExecutionResult, RunError, failed_nodes, stuck, none_left, claim, claim_all, execute_tick,
  run,
}
use aros_kernel.Dag.Executor.Rounds.{
  waiting, idle, busy, execute_tick_progress, execute_tick-IsValid,
}

module _ (max_parallel : ℕ) (task_fn : Node → Joined) (fuel : ℕ) (g : DagGraph) where
  abbrev ticked : DagGraph × List ExecutionResult
  ticked = execute_tick max_parallel task_fn g

  pub run_complete :
      is_complete ticked.0 ≡ true → run max_parallel task_fn (suc fuel) g ≡ some (ok tt, ticked.0)
  unfolding run
  run_complete h = rw (h, run)

  pub run-stop :
      is_complete ticked.0 ≡ false
      → (none_left ticked.1 && none_left (ready_nodes ticked.0)) ≡ true
      → run max_parallel task_fn (suc fuel) g
        ≡ some (if has_failed ticked.0 then err failed_nodes else err stuck, ticked.0)
  unfolding run
  run-stop h k = rw (h, k, run)

  pub run-again :
      is_complete ticked.0 ≡ false
      → (none_left ticked.1 && none_left (ready_nodes ticked.0)) ≡ false
      → run max_parallel task_fn (suc fuel) g ≡ run max_parallel task_fn fuel ticked.0
  unfolding run
  run-again h k = rw (h, k, run)

-- What the result of `run` says of the graph it leaves.
abbrev pub Outcome : Result (Unit {0}) RunError → DagGraph → Type 0
Outcome (ok _) g = is_complete g ≡ true
Outcome (err failed_nodes) g =
    (is_complete g ≡ false) × (ready_nodes g ≡ []) × (has_failed g ≡ true)
Outcome (err stuck) g = (is_complete g ≡ false) × (ready_nodes g ≡ []) × (has_failed g ≡ false)

none_left_iff : {A : Type 0} (xs : List A) → none_left xs ≡ true → xs ≡ []
none_left_iff xs h = ground arith

stop-Outcome :
    (g : DagGraph)
    → is_complete g ≡ false
    → ready_nodes g ≡ []
    → Outcome (if has_failed g then err failed_nodes else err stuck) g
stop-Outcome g h e = elim (Bool-cases (has_failed g)) [
  | inl f ↦ rw f (h, e, f)
  | inr f ↦ rw f (h, e, f)
]

module _ (room : ℕ) (task_fn : Node → Joined) where
  run_ends :
      (fuel : ℕ) (g : DagGraph)
      → IsValid g
      → waiting g < fuel
      → (r : Result (Unit {0}) RunError) × (g' : DagGraph) × (run (suc room) task_fn fuel g
          ≡ some (r, g'))
        × IsValid g'
        × Outcome r g'
  run_ends zero g v h = absurd (omega arith)
  run_ends (suc fuel) g v h = elim (Bool-cases (is_complete t.0)) [
    | inl c ↦ (ok tt, t.0, run_complete (suc room) task_fn fuel g c, valid, c)
    | inr c ↦ elim (Bool-cases (none_left t.1 && none_left (ready_nodes t.0))) [
      | inl s ↦ (
        if has_failed t.0 then err failed_nodes else err stuck,
        t.0,
        run-stop (suc room) task_fn fuel g c s,
        valid,
        stop-Outcome t.0 c (none_left_iff (ready_nodes t.0) (ground arith)),
      )
      | inr a ↦ elim (execute_tick_progress room g v task_fn) [
        | idle e same ↦ absurd (not_idle e same a)
        | busy _ fewer ↦
            let (r, g', e, v', o) = run_ends fuel t.0 valid (omega arith) in
            (r, g', run-again (suc room) task_fn fuel g c a ∙ e, v', o)
      ]
    ]
  ]
    where
      t : DagGraph × List ExecutionResult
      t = execute_tick (suc room) task_fn g

      valid : IsValid t.0
      valid = execute_tick-IsValid (suc room) task_fn g v

      not_idle :
          ready_nodes g ≡ []
          → t ≡ (g, [])
          → (none_left t.1 && none_left (ready_nodes t.0)) ≡ false
          → ⊥
      not_idle e same a = false≢true (sym (rw (same, e) at a))

-- With room for at least one task, `run` returns on every valid graph, whatever its tasks do: one
-- round more than there are pending nodes is enough. The graph it leaves is valid; the answer is
-- `Ok` only if every node is done, and otherwise no node is ready, and the error says whether
-- some node failed.
pub run_decides :
    (room : ℕ) (task_fn : Node → Joined) (g : DagGraph)
    → IsValid g
    → (r : Result (Unit {0}) RunError) × (g' : DagGraph) × (run
          (suc room)
          task_fn
          (suc (waiting g))
          g
        ≡ some (r, g'))
      × IsValid g'
      × Outcome r g'
run_decides room task_fn g v = run_ends room task_fn (suc (waiting g)) g v (omega arith)

-- With no room at all, `run` never returns on a graph that has a ready node and is not complete:
-- every amount of fuel runs out.
pub run_without_room :
    (task_fn : Node → Joined) (g : DagGraph) (n : Node) (ns : List Node) (fuel : ℕ)
    → ready_nodes g ≡ n ∷ ns
    → is_complete g ≡ false
    → run 0 task_fn fuel g ≡ none
run_without_room task_fn g n ns zero e c = unfold run in refl
run_without_room task_fn g n ns (suc fuel) e c =
    run-again 0 task_fn fuel g (rw tick c) (rw (tick, e) refl)
    ∙ ap (run 0 task_fn fuel) (ap (λ (t : DagGraph × List ExecutionResult). t.0) tick)
    ∙ run_without_room task_fn g n ns fuel e c
  where
    tick : execute_tick 0 task_fn g ≡ (g, [])
    tick = unfold execute_tick claim claim_all in refl
