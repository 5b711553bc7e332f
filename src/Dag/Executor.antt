-- ===== src/Dag/Executor.antt =====
-- src/dag/executor.rs: rounds of dispatching ready nodes. The tasks themselves are a parameter,
-- which says of each node what its `JoinHandle` returns.
pub mod Claim
pub mod Interleaving
pub mod Rounds
pub mod Termination
pub mod Readiness
pub mod Liveness
mod Examples
use Prim.Native.String
use aros_kernel.Prelude.{
  ℕ, zero, suc, String, Bool, true, false, ◌&&◌, Option, none, some, List, [], ◌∷◌, map,
  if◌then◌else◌, string_eq, take,
}
use aros_kernel.Prelude.Float.{finite}
use aros_kernel.Prelude.Map.{lookup, modify}
use aros_kernel.Prelude.Result.{Result, ok, err}
use aros_kernel.Dag.Graph.{
  in_progress, done, failed, NodeStatus, NodeResult, Node, DagGraph, ready_nodes, is_complete,
  has_failed,
}

pub record ExecutionResult : Type 0 where
  pub node_id : String
  pub result : NodeResult

-- `Result<NodeResult, JoinError>`, with the text of the error.
pub data Joined : Type 0 where
  finished : NodeResult → Joined
  panicked : String → Joined

abbrev pub set_status : NodeStatus → Node → Node
set_status s n = record n { status = s }

-- The loop over `ready_ids`: every node found is marked and copied.
unfoldable pub claim_all : List String → DagGraph → DagGraph × List Node
claim_all [] g = (g, [])
claim_all (id ∷ ids) g = elim (lookup id g.nodes) [
  | none ↦ claim_all ids g
  | some node ↦
      let g' : DagGraph = record { nodes = modify id (set_status in_progress) g.nodes } in
      let (g'', rest) = claim_all ids g' in (g'', set_status in_progress node ∷ rest)
]

-- The first part of a tick, under the write lock.
unfoldable pub claim : ℕ → DagGraph → DagGraph × List Node
unfolding claim_all
claim max_parallel g = claim_all (map (λ (n : Node). n.id) (take max_parallel (ready_nodes g))) g

unfoldable pub joined_result : Joined → NodeResult
joined_result (finished r) = r
joined_result (panicked e) = record {
  success = false;
  output = "";
  error = some (String.◌++◌ "Task panicked: " e);
  duration_secs = finite false 0 0;
}

-- What the tasks of a tick return, in the order of dispatch.
unfoldable pub run_tasks : (Node → Joined) → List Node → List ExecutionResult
unfolding joined_result
run_tasks task_fn [] = []
run_tasks task_fn (n ∷ ns) =
    record { node_id = n.id; result = joined_result (task_fn n) } ∷ run_tasks task_fn ns

unfoldable pub outcome_status : NodeResult → NodeStatus
outcome_status r = if r.success then done else failed

unfoldable pub record_result : ExecutionResult → DagGraph → DagGraph
unfolding outcome_status
record_result er g = record {
  nodes =
      modify er.node_id
        (λ n. record n { status = outcome_status er.result; result = some er.result }) g.nodes;
}

-- The last part of a tick, under the write lock.
unfoldable pub record_all : List ExecutionResult → DagGraph → DagGraph
unfolding record_result
record_all [] g = g
record_all (er ∷ ers) g = record_all ers (record_result er g)

-- "DAG has failed nodes with no recovery path", "DAG is stuck: no ready nodes and not complete".
pub data RunError : Type 0 where
  failed_nodes stuck : RunError

abbrev pub none_left : {A : Type 0} → List A → Bool
none_left [] = true
none_left (x ∷ xs) = false

module _ (max_parallel : ℕ) (task_fn : Node → Joined) where
  unfoldable pub execute_tick : DagGraph → DagGraph × List ExecutionResult
  execute_tick g =
      let (g', nodes_to_run) = claim max_parallel g in
      elim nodes_to_run [
        | [] ↦ (g', [])
        | n ∷ ns ↦ let results = run_tasks task_fn (n ∷ ns) in (record_all results g', results)
      ]

  -- The loop of `run`. `none` is the end of the fuel.
  unfoldable pub run : ℕ → DagGraph → Option (Result (Unit {0}) RunError × DagGraph)
  run zero g = none
  run (suc fuel) g =
      let (g', results) = execute_tick g in
      elim (is_complete g') [
        | true ↦ some (ok tt, g')
        | false ↦ elim (none_left results && none_left (ready_nodes g')) [
          | true ↦ some (if has_failed g' then err failed_nodes else err stuck, g')
          | false ↦ run fuel g'
        ]
      ]
