-- ===== src/Dag/Executor/Liveness.antt =====
-- A graph whose tasks succeed is run to completion by src/dag/executor.rs.
use mathlib.Core.Path.{subst}
use mathlib.Core.Bool.{false≢true}
use aros_kernel.Prelude.{
  ℕ, zero, suc, ◌<◌, String, ◌≡◌, refl, sym, ap, ◌∙◌, inl, inr, ◌⊎◌, ◌≢◌, true, some, List, [], ◌∷◌,
  map, arith, Bool-cases, Option-cases, List-cases, In, string_eq, ◌==◌, length, eq_of_beq, All,
  take,
}
use aros_kernel.Prelude.Map.{lookup, modify, lookup-modify, length-modify}
use aros_kernel.Prelude.Result.{ok}
use aros_kernel.Dag.Graph.{in_progress, Nodes, Node, DagGraph, ready_nodes, is_complete}
use aros_kernel.Dag.Graph.Mutation.{IsValid}
use aros_kernel.Dag.Graph.Status.{deps_of-modify, modify-IsValid}
use aros_kernel.Dag.Executor.{
  set_status, claim_all, claim, Joined, joined_result, ExecutionResult, outcome_status,
  record_result, record_all, run_tasks, execute_tick, run,
}
use aros_kernel.Dag.Executor.Claim.{claim_all-absent, claim_all-present, marked}
use aros_kernel.Dag.Executor.Readiness.{Settled, SettledBut, IsClosed, is_complete_of_idle}
use aros_kernel.Dag.Executor.Rounds.{
  waiting, idle, busy, execute_tick_progress, execute_tick-IsValid, execute_tick-cons,
  execute_tick-nil,
}
use aros_kernel.Dag.Executor.Termination.{run_complete, run-again}

-- What a run needs of the graph, and keeps.
record Healthy (P : String → Type 0) (g : DagGraph) : Type 0 where
  settled : SettledBut P g
  closed : IsClosed g
  inhabited : g.nodes ≢ []

modify-ne-nil : (k : String) (f : Node → Node) (m : Nodes) → m ≢ [] → modify k f m ≢ []
modify-ne-nil k f m h e = h (nil_of_length m (sym (length-modify k f m) ∙ ap length e))
  where
    nil_of_length : (xs : Nodes) → length xs ≡ 0 → xs ≡ []
    nil_of_length [] e = refl
    nil_of_length (x ∷ xs) e = absurd (omega arith)

module _ (id : String) (f : Node → Node) (same_id : (n : Node) → (f n).id ≡ n.id)
    (same_deps : (n : Node) → (f n).depends_on ≡ n.depends_on) where
  modify-IsClosed : (g : DagGraph) → IsClosed g → IsClosed (record { nodes = modify id f g.nodes })
  modify-IsClosed g c a b i = ground (
    arith,
    lookup-modify id b f g.nodes,
    c a b (rw (deps_of-modify id f same_id same_deps g.nodes a) at i),
  )

  -- One write, where each entry but the written one keeps its excuse.
  modify-Healthy :
      {P Q : String → Type 0} (g : DagGraph)
      → ((n : Node) → Settled (f n) ⊎ Q id)
      → ((k : String) → P k → (k ≡ id) ⊎ Q k)
      → Healthy P g
      → Healthy Q (record { nodes = modify id f g.nodes })
  modify-Healthy {P} {Q} g now later h = record {
    settled = λ k n here. elim (Option-cases (lookup k g.nodes)) [
      | inl gone ↦ absurd (ground (arith, lookup-modify id k f g.nodes))
      | inr (w, old) ↦ elim (Bool-cases (id == k)) [
        | inl same ↦
            let e : f w ≡ n = ground (arith, lookup-modify id k f g.nodes) in
            elim (now w) [
              | inl s ↦ inl (subst Settled e s)
              | inr q ↦ inr (subst Q (eq_of_beq id k same) q)
            ]
        | inr other ↦ elim (h.settled k n (ground (arith, lookup-modify id k f g.nodes))) [
          | inl s ↦ inl s
          | inr p ↦ elim (later k p) [
            | inl same ↦ absurd (ground (arith, string_eq.beq_iff id k))
            | inr q ↦ inr q
          ]
        ]
      ]
    ];
    closed = modify-IsClosed g h.closed;
    inhabited = modify-ne-nil id f g.nodes h.inhabited;
  }

Healthy-mono :
    {P Q : String → Type 0} {g : DagGraph} → ((k : String) → P k → Q k) → Healthy P g → Healthy Q g
Healthy-mono f h = record {
  settled = λ k n here. elim (h.settled k n here) [ inl s ↦ inl s | inr p ↦ inr (f k p) ];
  closed = h.closed;
  inhabited = h.inhabited;
}

abbrev ids_of : List Node → List String
ids_of = map (λ (n : Node). n.id)

-- After a claim only the claimed nodes are not settled.
claim_all-Healthy :
    {P : String → Type 0} (ids : List String) (g : DagGraph)
    → IsValid g
    → Healthy P g
    → Healthy (λ k. P k ⊎ In k (ids_of (claim_all ids g).1)) (claim_all ids g).0
claim_all-Healthy [] g v h = unfold claim_all in Healthy-mono (λ k p. inl p) h
claim_all-Healthy {P} (id ∷ ids) g v h = elim (Option-cases (lookup id g.nodes)) [
  | inl gone ↦ rw (claim_all-absent id ids g gone) (claim_all-Healthy ids g v h)
  | inr (w, here) ↦ rw (claim_all-present id ids g w here) (
      Healthy-mono (regroup w (v.named id w here) (ids_of (claim_all ids (marked id ids g)).1)) (
        claim_all-Healthy {P = λ k. P k ⊎ (k ≡ id)} ids (marked id ids g)
          (modify-IsValid id (set_status in_progress) (λ n. refl) (λ n. refl) g v)
          (modify-Healthy id (set_status in_progress) (λ n. refl) (λ n. refl) g
            (λ n. inr (inr refl)) (λ k p. inr (inl p)) h)))
]
  where
    regroup :
        (w : Node)
        → w.id ≡ id
        → (rest : List String) (k : String) → ((P k ⊎ (k ≡ id)) ⊎ In k rest)
        → P k ⊎ ((k ≡ w.id) ⊎ In k rest)
    regroup w e rest k (inl (inl p)) = inl p
    regroup w e rest k (inl (inr same)) = inr (inl (same ∙ sym e))
    regroup w e rest k (inr i) = inr (inr i)

abbrev AllSucceed : List ExecutionResult → Type 0
AllSucceed = All (λ er. er.result.success ≡ true)

abbrev ids_recorded : List ExecutionResult → List String
ids_recorded = map (λ (er : ExecutionResult). er.node_id)

record_all-Healthy :
    (ers : List ExecutionResult) (g : DagGraph)
    → AllSucceed ers
    → Healthy (λ k. In k (ids_recorded ers)) g
    → Healthy (λ _. ⊥) (record_all ers g)
unfolding record_all record_result outcome_status
record_all-Healthy [] g _ h = h
record_all-Healthy (er ∷ ers) g ok_all h = record_all-Healthy ers _ ok_all.1 (
    modify-Healthy er.node_id
      (λ n. record n { status = outcome_status er.result; result = some er.result }) (λ n. refl)
      (λ n. refl) g (λ n. inl (inr (rw ok_all.0 refl))) (λ k p. p) h)

module _ (task_fn : Node → Joined)
    (succeeds : (n : Node) → (joined_result (task_fn n)).success ≡ true) where
  run_tasks-AllSucceed : (ns : List Node) → AllSucceed (run_tasks task_fn ns)
  unfolding run_tasks
  run_tasks-AllSucceed [] = tt
  run_tasks-AllSucceed (n ∷ ns) = (succeeds n, run_tasks-AllSucceed ns)

  ids_recorded-run_tasks : (ns : List Node) → ids_recorded (run_tasks task_fn ns) ≡ ids_of ns
  unfolding run_tasks
  ids_recorded-run_tasks [] = refl
  ids_recorded-run_tasks (n ∷ ns) = ap (λ ids. n.id ∷ ids) (ids_recorded-run_tasks ns)

  tick-Healthy :
      (max_parallel : ℕ) (g : DagGraph)
      → IsValid g
      → Healthy (λ _. ⊥) g
      → Healthy (λ _. ⊥) (execute_tick max_parallel task_fn g).0
  tick-Healthy max_parallel g v h = elim (List-cases (claim max_parallel g).1) [
    | inl e ↦ rw (execute_tick-nil max_parallel task_fn g e) (
        Healthy-mono
          (λ k. elim [ inl impossible ↦ impossible | inr i ↦ subst (λ ns. In k (ids_of ns)) e i ])
          claimed)
    | inr (n, ns, e) ↦ rw (execute_tick-cons max_parallel task_fn g n ns e) (
        record_all-Healthy (run_tasks task_fn (n ∷ ns)) (claim max_parallel g).0
          (run_tasks-AllSucceed (n ∷ ns))
          (Healthy-mono
            (λ k. elim [
              | inl impossible ↦ absurd impossible
              | inr i ↦
                  subst (In k) (sym (ids_recorded-run_tasks (n ∷ ns)))
                    (subst (λ ns. In k (ids_of ns)) e i)
            ])
            claimed))
  ]
    where
      claimed : Healthy (λ k. ⊥ ⊎ In k (ids_of (claim max_parallel g).1)) (claim max_parallel g).0
      claimed = unfold claim in claim_all-Healthy (ids_of (take max_parallel (ready_nodes g))) g v h

  run-ok :
      (room fuel : ℕ) (g : DagGraph)
      → IsValid g
      → Healthy (λ _. ⊥) g
      → waiting g < fuel
      → (g' : DagGraph) × (run (suc room) task_fn fuel g ≡ some (ok tt, g'))
        × (is_complete g' ≡ true)
  run-ok room zero g v h less = absurd (omega arith)
  run-ok room (suc fuel) g v h less = elim (Bool-cases (is_complete t.0)) [
    | inl c ↦ (t.0, run_complete (suc room) task_fn fuel g c, c)
    | inr c ↦ elim (execute_tick_progress room g v task_fn) [
      | idle e same ↦
          absurd (
            false≢true (sym c ∙ rw same (is_complete_of_idle g v h.settled h.closed e h.inhabited)))
      | busy some_result fewer ↦
          let (g', e, done') = run-ok room fuel t.0 valid healthy (omega arith) in
          (g', run-again (suc room) task_fn fuel g c (rw some_result refl) ∙ e, done')
    ]
  ]
    where
      t : DagGraph × List ExecutionResult
      t = execute_tick (suc room) task_fn g

      valid : IsValid t.0
      valid = execute_tick-IsValid (suc room) task_fn g v

      healthy : Healthy (λ _. ⊥) t.0
      healthy = tick-Healthy (suc room) g v h

-- A valid graph with at least one node, whose dependencies are all in the graph and whose nodes
-- are all pending or done, is run to completion by tasks that succeed: with room for at least one
-- task, `run` returns `Ok` and every node is done.
pub run_completes :
    (room : ℕ) (task_fn : Node → Joined) (g : DagGraph)
    → ((n : Node) → (joined_result (task_fn n)).success ≡ true)
    → IsValid g
    → IsClosed g
    → ((k : String) (n : Node) → lookup k g.nodes ≡ some n → Settled n)
    → g.nodes ≢ []
    → (g' : DagGraph) × (run (suc room) task_fn (suc (waiting g)) g ≡ some (ok tt, g'))
      × (is_complete g' ≡ true)
run_completes room task_fn g succeeds v c s inhabited =
    run-ok task_fn succeeds room (suc (waiting g)) g v
      (record { settled = λ k n here. inl (s k n here); closed = c; inhabited = inhabited })
      (omega arith)
