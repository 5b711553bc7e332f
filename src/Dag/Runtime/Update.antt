-- ===== src/Dag/Runtime/Update.antt =====
-- `update_dependencies` and `remove_node` of src/dag/runtime.rs.
use aros_kernel.Prelude.{
  String, ◌≡◌, refl, inl, inr, ◌⊎◌, ◌≢◌, true, false, none, some, List, [], ◌∷◌, arith, Bool-cases,
  Option-cases, string_eq,
}
use aros_kernel.Prelude.Map.{lookup, modify, UniqueKeys-modify}
use aros_kernel.Prelude.Result.{ok, err}
use aros_kernel.Dag.Graph
use aros_kernel.Dag.Graph.{
  NodeStatus, pending, Node, Nodes, DagError, node_not_found, node_in_progress, cycle_detected,
  DagGraph, status_eq, has_cycle,
}
use aros_kernel.Dag.Graph.Walks.{Walk, IsAcyclic}
use aros_kernel.Dag.Graph.Detection.{has_cycle_decides}
use aros_kernel.Dag.Graph.Mutation.{IsValid, remove_node-IsValid}
use aros_kernel.Dag.Graph.Status.{modify_named}
use aros_kernel.Dag.Runtime.{remove_node, set_deps, update_dependencies}

-- The second write takes the first one back.
set_deps_back :
    (id : String) (deps : List String) (nodes : Nodes) (node : Node)
    → lookup id nodes ≡ some node
    → modify id
        (λ n. record n { depends_on = node.depends_on })
        (modify id (λ n. record n { depends_on = deps }) nodes)
      ≡ nodes
unfolding lookup modify
set_deps_back id deps [] node h = refl
set_deps_back id deps ((j, w) ∷ nodes) node h = ground (arith, set_deps_back id deps nodes node)

set_deps-IsValid :
    (id : String) (deps : List String) (g : DagGraph)
    → IsValid g
    → has_cycle (set_deps id deps g) ≡ false
    → IsValid (set_deps id deps g)
set_deps-IsValid id deps g v c = record {
  unique = UniqueKeys-modify id _ g.nodes v.unique;
  named = modify_named id (λ n. record n { depends_on = deps }) (λ n. refl) g.nodes v.named;
  acyclic = (has_cycle_decides (set_deps id deps g)).1 c;
}

-- The node is there and waits: the guard that both operations share.
abbrev pub IsPending : String → DagGraph → Type 0
IsPending id g = (node : Node) × (lookup id g.nodes ≡ some node) × (node.status ≡ pending)

abbrev pub IsBusy : String → DagGraph → Type 0
IsBusy id g = (node : Node) × (lookup id g.nodes ≡ some node) × (node.status ≢ pending)

status_eq_pending : (s : NodeStatus) → s ≡ pending ⊎ (status_eq s pending ≡ false)
status_eq_pending s = ground arith

status_cases :
    (id : String) (g : DagGraph) → (lookup id g.nodes ≡ none) ⊎ IsBusy id g ⊎ IsPending id g
status_cases id g = elim (Option-cases (lookup id g.nodes)) [
  | inl gone ↦ inl gone
  | inr (node, here) ↦ elim (status_eq_pending node.status) [
    | inl waits ↦ inr (inr (node, here, waits))
    | inr busy ↦ inr (inl (node, here, λ waits. ground arith))
  ]
]

module _ (id : String) (deps : List String) (g : DagGraph) where
  update_missing :
      lookup id g.nodes ≡ none → update_dependencies id deps g ≡ (err (node_not_found id), g)
  unfolding update_dependencies
  update_missing gone = rw (gone, update_dependencies)

  update_busy : IsBusy id g → update_dependencies id deps g ≡ (err (node_in_progress id), g)
  unfolding update_dependencies
  update_busy (node, here, busy) = ground (arith, status_eq_pending node.status)

  update_cyclic :
      IsPending id g
      → has_cycle (set_deps id deps g) ≡ true
      → update_dependencies id deps g ≡ (err (cycle_detected id), g)
  unfolding update_dependencies
  update_cyclic (node, here, waits) found = ground (arith, set_deps_back id deps g.nodes node here)

  update_written :
      IsPending id g
      → has_cycle (set_deps id deps g) ≡ false
      → update_dependencies id deps g ≡ (ok tt, set_deps id deps g)
  unfolding update_dependencies
  update_written (node, here, waits) clear = ground arith

-- A missing node is reported as such, and a node that is not pending as in progress; the graph
-- stays as it was. New dependencies that close a cycle are refused, and the old ones are put back
-- so that the graph is the one from before. All other dependencies are written.
pub update_dependencies_outcomes :
    (id : String) (deps : List String) (g : DagGraph)
    → ((lookup id g.nodes ≡ none) × (update_dependencies id deps g ≡ (err (node_not_found id), g)))
      ⊎ (IsBusy id g × (update_dependencies id deps g ≡ (err (node_in_progress id), g)))
      ⊎ (IsPending id g
          × ((v : String) × Walk (set_deps id deps g).nodes v v)
          × (update_dependencies id deps g ≡ (err (cycle_detected id), g)))
      ⊎ (IsPending id g
          × IsAcyclic (set_deps id deps g).nodes
          × (update_dependencies id deps g ≡ (ok tt, set_deps id deps g)))
update_dependencies_outcomes id deps g = elim (status_cases id g) [
  | inl gone ↦ inl (gone, update_missing id deps g gone)
  | inr (inl busy) ↦ inr (inl (busy, update_busy id deps g busy))
  | inr (inr waits) ↦ elim (Bool-cases (has_cycle (set_deps id deps g))) [
    | inl found ↦ inr (
        inr (
          inl (
            waits,
            (has_cycle_decides (set_deps id deps g)).0 found,
            update_cyclic id deps g waits found,
          )))
    | inr clear ↦ inr (
        inr (
          inr (
            waits,
            (has_cycle_decides (set_deps id deps g)).1 clear,
            update_written id deps g waits clear,
          )))
  ]
]

update_dependencies_cases :
    (id : String) (deps : List String) (g : DagGraph)
    → ((update_dependencies id deps g).1 ≡ g)
      ⊎ (has_cycle (set_deps id deps g) ≡ false)
        × ((update_dependencies id deps g).1 ≡ set_deps id deps g)
unfolding update_dependencies
update_dependencies_cases id deps g = elim (Option-cases (lookup id g.nodes)) [
  | inl gone ↦ inl (ground arith)
  | inr (node, here) ↦ elim (Bool-cases (has_cycle (set_deps id deps g))) [
    | inl found ↦ inl (ground (arith, set_deps_back id deps g.nodes node here))
    | inr clear ↦ ground arith
  ]
]

-- `update_dependencies` keeps a valid graph valid, whatever it returns.
pub update_dependencies-IsValid :
    (id : String) (deps : List String) (g : DagGraph)
    → IsValid g
    → IsValid (update_dependencies id deps g).1
update_dependencies-IsValid id deps g v = elim (update_dependencies_cases id deps g) [
  | inl same ↦ rw same v
  | inr (clear, e) ↦ rw e (set_deps-IsValid id deps g v clear)
]

runtime_missing :
    (id : String) (g : DagGraph)
    → lookup id g.nodes ≡ none
    → remove_node id g ≡ (err (node_not_found id), g)
unfolding remove_node
runtime_missing id g gone = rw (gone, remove_node)

runtime_busy :
    (id : String) (g : DagGraph) → IsBusy id g → remove_node id g ≡ (err (node_in_progress id), g)
unfolding remove_node
runtime_busy id g (node, here, busy) = ground (arith, status_eq_pending node.status)

runtime_pending :
    (id : String) (g : DagGraph) → IsPending id g → remove_node id g ≡ Graph.remove_node id g
unfolding remove_node
runtime_pending id g (node, here, waits) = ground arith

-- At run time a node is removed only if it is pending: a missing node is reported as such, a
-- node in any other state as in progress, with the graph unchanged, and a pending one is left to
-- the removal of the graph. A valid graph stays valid.
pub runtime_remove_node :
    (id : String) (g : DagGraph)
    → IsValid g
    → (((lookup id g.nodes ≡ none) × (remove_node id g ≡ (err (node_not_found id), g)))
        ⊎ (IsBusy id g × (remove_node id g ≡ (err (node_in_progress id), g)))
        ⊎ (IsPending id g × (remove_node id g ≡ Graph.remove_node id g)))
      × IsValid (remove_node id g).1
runtime_remove_node id g v = elim (status_cases id g) [
  | inl gone ↦ (inl (gone, runtime_missing id g gone), rw (runtime_missing id g gone) v)
  | inr (inl busy) ↦ (inr (inl (busy, runtime_busy id g busy)), rw (runtime_busy id g busy) v)
  | inr (inr waits) ↦ (
    inr (inr (waits, runtime_pending id g waits)),
    rw (runtime_pending id g waits) (remove_node-IsValid id g v),
  )
]
