-- ===== src/Dag/Executor/Examples.antt =====
-- A graph that changes while a tick of src/dag/executor.rs runs.
use aros_kernel.Prelude.{String, ◌≡◌, refl, inl, some, [], ◌∷◌, In, string_eq}
use aros_kernel.Prelude.Map.{lookup}
use aros_kernel.Dag.Graph.{Node, DagGraph, done, in_progress, add_node, ready_nodes}
use aros_kernel.Dag.Runtime.{remove_node, update_dependencies}
use aros_kernel.Dag.Graph.Mutation.{IsValid}
use aros_kernel.Dag.Executor.{
  set_status, ExecutionResult, claim, claim_all, record_result, record_all, joined_result,
  outcome_status,
}
use aros_kernel.Dag.Executor.Interleaving.{
  Edits, unchanged, and_then, adds, removes, rewires, none_yet, followed_by, claims, records,
  Steps-IsValid, claimed_survive,
}
use aros_kernel.Dag.Examples.{task, chain, chain-IsValid, succeed}

-- `build` is claimed; then `test` is added, `ship` waits for it too, and `test` cannot be removed.
abbrev claimed : DagGraph
claimed = (claim 1 chain).0

abbrev grown : DagGraph
grown = (add_node (task "test" []) claimed).1

abbrev rewired : DagGraph
rewired = (update_dependencies "ship" ("build" ∷ "test" ∷ []) grown).1

abbrev meanwhile : DagGraph
meanwhile = (remove_node "test" rewired).1

changes : Edits claimed meanwhile
changes =
    and_then
      (and_then (and_then unchanged (adds claimed (task "test" [])))
        (rewires grown "ship" ("build" ∷ "test" ∷ [])))
      (removes rewired "test")

abbrev build : Node
build = set_status in_progress (task "build" [])

abbrev built : ExecutionResult
built = record { node_id = "build"; result = joined_result (succeed build) }

build_claimed : In build (claim 1 chain).1
unfolding claim claim_all ready_nodes lookup
build_claimed = inl refl

claimed_survive_example :
    (lookup "build" meanwhile.nodes ≡ some build)
    × ((d : String)
        → In d []
        → (dep : Node) × (lookup d meanwhile.nodes ≡ some dep) × (dep.status ≡ done))
    × (lookup "build" (record_result built meanwhile).nodes
        ≡ some (record build { status = outcome_status built.result; result = some built.result }))
claimed_survive_example =
    claimed_survive 1 chain meanwhile build built chain-IsValid build_claimed changes refl

Steps-IsValid_example : IsValid (record_all (built ∷ []) claimed)
Steps-IsValid_example =
    Steps-IsValid
      (followed_by (followed_by none_yet (claims chain 1)) (records claimed (built ∷ [])))
      chain-IsValid
