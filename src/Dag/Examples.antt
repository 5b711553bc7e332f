-- ===== src/Dag/Examples.antt =====
-- Small task graphs, and the theorems about src/dag at them.
use mathlib.Core.Bool.{false≢true}
use aros_kernel.Prelude.{
  suc, String, ◌≡◌, ◌⊎◌, ◌≤◌, refl, inl, inr, true, false, none, some, List, [], ◌∷◌, arith, In,
  length, string_eq,
}
use aros_kernel.Prelude.Float.{finite}
use aros_kernel.Prelude.Map.{lookup, insert, values, contains_key}
use aros_kernel.Prelude.Result.{Result, ok, err}
use aros_kernel.Dag.Graph.{
  deps_of, pending, session, Node, DagGraph, duplicate_node, node_not_found, node_in_progress,
  cycle_detected, has_dependents, has_cycle, add_node, remove_node, ready_nodes, is_complete,
}
use aros_kernel.Dag.Graph.Walks.{Walk, edge, onward, IsAcyclic}
use aros_kernel.Dag.Graph.Detection.{has_cycle_iff}
use aros_kernel.Dag.Graph.Mutation.{IsValid, add_node_outcomes, add_node-IsValid}
use aros_kernel.Dag.Graph.Ready.{IsReady, ready_nodes_iff}
use aros_kernel.Dag.Runtime.{update_dependencies, set_deps}
use aros_kernel.Dag.Runtime.Update.{IsPending, IsBusy, update_dependencies_outcomes}
use aros_kernel.Dag.Executor.{Joined, finished, claim, run, RunError, joined_result}
use aros_kernel.Dag.Executor.Claim.{claim_sound}
use aros_kernel.Dag.Executor.Rounds.{waiting}
use aros_kernel.Dag.Executor.Termination.{Outcome, run_decides}
use aros_kernel.Dag.Executor.Readiness.{Settled, IsClosed}
use aros_kernel.Dag.Executor.Liveness.{run_completes}

abbrev pub task : String → List String → Node
task id deps = record {
  id = id;
  title = "";
  description = "";
  depends_on = deps;
  status = pending;
  agent_level = session;
  output_files = [];
  retry_count = 0;
  result = none;
}

abbrev empty : DagGraph
empty = record { nodes = [] }

-- `build` waits for nothing, `ship` for `build`.
abbrev pub chain : DagGraph
chain = record { nodes = ("build", task "build" []) ∷ ("ship", task "ship" ("build" ∷ [])) ∷ [] }

abbrev ring : DagGraph
ring = record {
  nodes = ("build", task "build" ("ship" ∷ [])) ∷ ("ship", task "ship" ("build" ∷ [])) ∷ [];
}

no-Walk : (v w : String) → Walk [] v w → ⊥
unfolding lookup
no-Walk v w (edge e) = absurd (false≢true e.1)
no-Walk v w (onward p e) = absurd (false≢true e.1)

empty-IsValid : IsValid empty
unfolding lookup
empty-IsValid = record {
  unique = tt;
  named = λ k n h. absurd (ground arith);
  acyclic = λ v p. no-Walk v v p;
}

pub chain-IsValid : IsValid chain
unfolding add_node has_cycle insert
chain-IsValid =
    add_node-IsValid (task "ship" ("build" ∷ []))
      (record { nodes = ("build", task "build" []) ∷ [] })
      (add_node-IsValid (task "build" []) empty empty-IsValid)

ring-Walk : Walk ring.nodes "build" "build"
unfolding lookup
ring-Walk = onward (edge (inl refl, refl)) (inl refl, refl)

ring_found : has_cycle ring ≡ true
unfolding has_cycle
ring_found = refl

has_cycle_iff_example : (v : String) × Walk ring.nodes v v
has_cycle_iff_example = (has_cycle_iff ring).0 ring_found

add_node_outcomes_example :
    ((contains_key "build" chain.nodes ≡ true)
      × (add_node (task "build" []) chain ≡ (err (duplicate_node "build"), chain)))
    ⊎ ((contains_key "build" chain.nodes ≡ false)
        × ((v : String) × Walk (insert "build" (task "build" []) chain.nodes) v v)
        × (add_node (task "build" []) chain ≡ (err (cycle_detected "build"), chain)))
    ⊎ ((contains_key "build" chain.nodes ≡ false)
        × IsAcyclic (insert "build" (task "build" []) chain.nodes)
        × (add_node (task "build" []) chain
            ≡ (ok tt, record { nodes = insert "build" (task "build" []) chain.nodes })))
add_node_outcomes_example = add_node_outcomes (task "build" []) chain

shipped : (remove_node "ship" chain).0 ≡ ok (task "ship" ("build" ∷ []))
unfolding remove_node
shipped = refl

kept : (remove_node "build" chain).0 ≡ err (has_dependents "build")
unfolding remove_node
kept = refl

ready_build : In (task "build" []) (ready_nodes chain)
unfolding ready_nodes
ready_build = inl refl

ready_nodes_iff_example :
    In (task "build" []) (values chain.nodes) × IsReady chain.nodes (task "build" [])
ready_nodes_iff_example = (ready_nodes_iff chain (task "build" [])).0 ready_build

update_dependencies_outcomes_example :
    ((lookup "ship" chain.nodes ≡ none)
      × (update_dependencies "ship" [] chain ≡ (err (node_not_found "ship"), chain)))
    ⊎ (IsBusy "ship" chain
        × (update_dependencies "ship" [] chain ≡ (err (node_in_progress "ship"), chain)))
    ⊎ (IsPending "ship" chain
        × ((v : String) × Walk (set_deps "ship" [] chain).nodes v v)
        × (update_dependencies "ship" [] chain ≡ (err (cycle_detected "ship"), chain)))
    ⊎ (IsPending "ship" chain
        × IsAcyclic (set_deps "ship" [] chain).nodes
        × (update_dependencies "ship" [] chain ≡ (ok tt, set_deps "ship" [] chain)))
update_dependencies_outcomes_example = update_dependencies_outcomes "ship" [] chain

claim_sound_example : length (claim 3 chain).1 ≤ 3
claim_sound_example = (claim_sound 3 chain chain-IsValid).0

-- A task that succeeds at once.
abbrev pub succeed : Node → Joined
succeed n =
    finished
      (record { success = true; output = ""; error = none; duration_secs = finite false 0 0 })

run_decides_example :
    (r : Result (Unit {0}) RunError) × (g' : DagGraph) × (run 1 succeed (suc (waiting chain)) chain
      ≡ some (r, g'))
    × IsValid g'
    × Outcome r g'
run_decides_example = run_decides 0 succeed chain chain-IsValid

chain_ready : ready_nodes chain ≡ task "build" [] ∷ []
unfolding ready_nodes
chain_ready = refl

chain_open : is_complete chain ≡ false
unfolding is_complete
chain_open = refl

chain_deps : (a : String) → (deps_of chain.nodes a ≡ []) ⊎ (deps_of chain.nodes a ≡ "build" ∷ [])
unfolding lookup
chain_deps a = ground arith

chain-IsClosed : IsClosed chain
unfolding lookup
chain-IsClosed a b i = elim (chain_deps a) [
  | inl e ↦ let j : In b [] = rw e at i in absurd j
  | inr e ↦
      let j : In b ("build" ∷ []) = rw e at i in
      elim j [ inl same ↦ rw same refl | inr none_left ↦ absurd none_left ]
]

chain-Settled : (k : String) (n : Node) → lookup k chain.nodes ≡ some n → Settled n
unfolding lookup
chain-Settled k n h = ground arith

pub succeeds : (n : Node) → (joined_result (succeed n)).success ≡ true
unfolding joined_result
succeeds n = refl

run_completes_example :
    (g' : DagGraph) × (run 2 succeed (suc (waiting chain)) chain ≡ some (ok tt, g'))
    × (is_complete g' ≡ true)
run_completes_example =
    run_completes 1 succeed chain succeeds chain-IsValid chain-IsClosed chain-Settled (λ e. cc)
