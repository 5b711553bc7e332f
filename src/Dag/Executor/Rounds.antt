-- ===== src/Dag/Executor/Rounds.antt =====
-- Every tick of src/dag/executor.rs that dispatches a node leaves fewer of them waiting.
use aros_kernel.Prelude.{
  ℕ, suc, ◌≤◌, ◌<◌, String, ◌≡◌, refl, ◌∙◌, ap, inl, inr, false, some, List, [], ◌∷◌, map, arith,
  Option-cases, List-cases, string_eq, In, take, count_if,
}
use aros_kernel.Prelude.Map.{lookup, values, count_if-modify-le, count_if-modify-lt}
use aros_kernel.Dag.Graph.{pending, in_progress, Node, DagGraph, status_eq, ready_nodes}
use aros_kernel.Dag.Graph.Mutation.{IsValid}
use aros_kernel.Dag.Graph.Ready.{IsReady, ready_nodes_iff, lookup-id}
use aros_kernel.Dag.Graph.Status.{modify-IsValid}
use aros_kernel.Dag.Executor.{
  set_status, claim_all, claim, Joined, ExecutionResult, outcome_status, record_result, record_all,
  run_tasks, execute_tick, none_left,
}
use aros_kernel.Dag.Executor.Claim.{claim_all-absent, claim_all-present, marked}

-- The nodes that are still pending.
abbrev pub waiting : DagGraph → ℕ
waiting g = count_if (λ (n : Node). status_eq n.status pending) (values g.nodes)

pub claim_all-IsValid : (ids : List String) (g : DagGraph) → IsValid g → IsValid (claim_all ids g).0
claim_all-IsValid [] g v = unfold claim_all in v
claim_all-IsValid (id ∷ ids) g v = elim (Option-cases (lookup id g.nodes)) [
  | inl gone ↦ rw (claim_all-absent id ids g gone) (claim_all-IsValid ids g v)
  | inr (w, here) ↦ rw (claim_all-present id ids g w here) (
      claim_all-IsValid ids (marked id ids g)
        (modify-IsValid id (set_status in_progress) (λ n. refl) (λ n. refl) g v))
]

claim_all-waiting : (ids : List String) (g : DagGraph) → waiting (claim_all ids g).0 ≤ waiting g
claim_all-waiting [] g = unfold claim_all in omega arith
claim_all-waiting (id ∷ ids) g = elim (Option-cases (lookup id g.nodes)) [
  | inl gone ↦ rw (claim_all-absent id ids g gone) (claim_all-waiting ids g)
  | inr (w, here) ↦ rw (claim_all-present id ids g w here) (
      omega (
        arith,
        claim_all-waiting ids (marked id ids g),
        count_if-modify-le (λ (n : Node). status_eq n.status pending) id (set_status in_progress)
            g.nodes (λ n e. cc),
      ))
]

record_result-IsValid :
    (er : ExecutionResult) (g : DagGraph) → IsValid g → IsValid (record_result er g)
unfolding record_result
record_result-IsValid er g v = modify-IsValid er.node_id _ (λ n. refl) (λ n. refl) g v

pub record_all-IsValid :
    (ers : List ExecutionResult) (g : DagGraph) → IsValid g → IsValid (record_all ers g)
unfolding record_all
record_all-IsValid [] g v = v
record_all-IsValid (er ∷ ers) g v =
    record_all-IsValid ers (record_result er g) (record_result-IsValid er g v)

record_result-waiting :
    (er : ExecutionResult) (g : DagGraph) → waiting (record_result er g) ≤ waiting g
unfolding record_result outcome_status
record_result-waiting er g =
    count_if-modify-le (λ (n : Node). status_eq n.status pending) er.node_id
      (λ n. record n { status = outcome_status er.result; result = some er.result }) g.nodes
      (λ n e. ground arith)

record_all-waiting :
    (ers : List ExecutionResult) (g : DagGraph) → waiting (record_all ers g) ≤ waiting g
unfolding record_all
record_all-waiting [] g = omega arith
record_all-waiting (er ∷ ers) g =
    omega (arith, record_result-waiting er g, record_all-waiting ers (record_result er g))

-- What a tick with room for at least one task does: nothing at all, since no node is ready, or it
-- dispatches some node and leaves fewer of them waiting.
pub data Progress (g : DagGraph) (t : DagGraph × List ExecutionResult) : Type 0 where
  idle : ready_nodes g ≡ [] → t ≡ (g, []) → Progress g t
  busy : none_left t.1 ≡ false → waiting t.0 < waiting g → Progress g t

claim-nil : (room : ℕ) (g : DagGraph) → ready_nodes g ≡ [] → claim (suc room) g ≡ (g, [])
unfolding claim claim_all
claim-nil room g e = rw (e, claim)

module _ (max_parallel : ℕ) (task_fn : Node → Joined) (g : DagGraph) where
  pub execute_tick-nil :
      (claim max_parallel g).1 ≡ []
      → execute_tick max_parallel task_fn g ≡ ((claim max_parallel g).0, [])
  unfolding execute_tick
  execute_tick-nil e = rw (e, execute_tick)

  pub execute_tick-cons :
      (n : Node) (ns : List Node)
      → (claim max_parallel g).1 ≡ n ∷ ns
      → execute_tick max_parallel task_fn g ≡ (
        record_all (run_tasks task_fn (n ∷ ns)) (claim max_parallel g).0,
        run_tasks task_fn (n ∷ ns),
      )
  unfolding execute_tick
  execute_tick-cons n ns e = rw (e, execute_tick)

  pub execute_tick-IsValid : IsValid g → IsValid (execute_tick max_parallel task_fn g).0
  execute_tick-IsValid v = elim (List-cases (claim max_parallel g).1) [
    | inl e ↦ rw (execute_tick-nil e) claimed
    | inr (n, ns, e) ↦
        rw (execute_tick-cons n ns e)
          (record_all-IsValid (run_tasks task_fn (n ∷ ns)) (claim max_parallel g).0 claimed)
  ]
    where
      claimed : IsValid (claim max_parallel g).0
      claimed =
          unfold claim in
          claim_all-IsValid (map (λ (n : Node). n.id) (take max_parallel (ready_nodes g))) g v

module _ (room : ℕ) (g : DagGraph) (v : IsValid g) where
  pub claim-cons :
      (n : Node) (ns : List Node)
      → ready_nodes g ≡ n ∷ ns
      → (rest : List Node) × ((claim (suc room) g).1 ≡ set_status in_progress n ∷ rest)
        × (waiting (claim (suc room) g).0 < waiting g)
  claim-cons n ns e = (
    later.1,
    ap (λ (t : DagGraph × List Node). t.1) shape,
    rw shape (
        omega (
          arith,
          claim_all-waiting ids (marked n.id ids g),
          count_if-modify-lt (λ (m : Node). status_eq m.status pending) n.id
              (set_status in_progress) g.nodes n stored (ground (arith, ready.1.waits)) refl,
        )),
  )
    where
      ids : List String
      ids = map (λ (m : Node). m.id) (take room ns)

      later : DagGraph × List Node
      later = claim_all ids (marked n.id ids g)

      ready : In n (values g.nodes) × IsReady g.nodes n
      ready = (ready_nodes_iff g n).0 (rw e (inl refl))

      stored : lookup n.id g.nodes ≡ some n
      stored = lookup-id g n v ready.0

      shape : claim (suc room) g ≡ (later.0, set_status in_progress n ∷ later.1)
      shape = unfold claim in rw (e, claim) (claim_all-present n.id ids g n stored)

  pub execute_tick_progress :
      (task_fn : Node → Joined) → Progress g (execute_tick (suc room) task_fn g)
  execute_tick_progress task_fn = elim (List-cases (ready_nodes g)) [
    | inl e ↦ idle e (
        execute_tick-nil (suc room) task_fn g (rw (claim-nil room g e))
        ∙ ap (λ (t : DagGraph × List Node). (t.0, [])) (claim-nil room g e))
    | inr (n, ns, e) ↦
        let (rest, shape, fewer) = claim-cons n ns e in
        let tick = execute_tick-cons (suc room) task_fn g (set_status in_progress n) rest shape in
        busy (rw tick (unfold run_tasks in refl)) (
          rw tick (
            omega (
              arith,
              fewer,
              record_all-waiting (run_tasks task_fn (set_status in_progress n ∷ rest))
                  (claim (suc room) g).0,
            )))
  ]
