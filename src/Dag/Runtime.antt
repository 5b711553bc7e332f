-- ===== src/Dag/Runtime.antt =====
-- src/dag/runtime.rs: changes to a graph that an executor may be running. Each method holds the
-- write lock from its first read to its last write, so it is one step on the graph.
pub mod Update
pub mod Tally
use aros_kernel.Prelude.{
  ℕ, ◌+◌, String, Bool, true, false, not, Option, none, some, List, [], ◌∷◌, foldl, if◌then◌else◌,
  string_eq,
}
use aros_kernel.Prelude.Map.{lookup, modify, values}
use aros_kernel.Prelude.Result.{Result, ok, err}
use aros_kernel.Dag.Graph
use aros_kernel.Dag.Graph.{
  NodeStatus, pending, in_progress, done, failed, blocked, Node, DagError, node_not_found,
  node_in_progress, cycle_detected, DagGraph, status_eq, has_cycle,
}

unfoldable pub remove_node : String → DagGraph → Result Node DagError × DagGraph
remove_node id g = elim (lookup id g.nodes) [
  | none ↦ (err (node_not_found id), g)
  | some node ↦
      if status_eq node.status in_progress
      then (err (node_in_progress id), g)
      else (if not (status_eq node.status pending)
          then (err (node_in_progress id), g)
          else Graph.remove_node id g)
]

-- `graph.get_node_mut(id).unwrap().depends_on = deps`
abbrev pub set_deps : String → List String → DagGraph → DagGraph
set_deps id deps g = record { nodes = modify id (λ n. record n { depends_on = deps }) g.nodes }

unfoldable pub update_dependencies :
    String → List String → DagGraph → Result (Unit {0}) DagError × DagGraph
update_dependencies id new_deps g = elim (lookup id g.nodes) [
  | none ↦ (err (node_not_found id), g)
  | some node ↦
      if not (status_eq node.status pending)
      then (err (node_in_progress id), g)
      else (let old_deps = node.depends_on in
          let g' = set_deps id new_deps g in
          if has_cycle g' then (err (cycle_detected id), set_deps id old_deps g') else (ok tt, g'))
]

pub record DagStats : Type 0 where
  pub total : ℕ
  pub pending : ℕ
  pub in_progress : ℕ
  pub done : ℕ
  pub failed : ℕ

-- The body of the loop in `stats`.
unfoldable pub tally : DagStats → NodeStatus → DagStats
tally s NodeStatus.pending = record s { total = s.total + 1; pending = s.pending + 1 }
tally s NodeStatus.blocked = record s { total = s.total + 1; pending = s.pending + 1 }
tally s NodeStatus.in_progress = record s { total = s.total + 1; in_progress = s.in_progress + 1 }
tally s NodeStatus.done = record s { total = s.total + 1; done = s.done + 1 }
tally s NodeStatus.failed = record s { total = s.total + 1; failed = s.failed + 1 }

unfoldable pub tally_all : DagStats → List Node → DagStats
unfolding tally
tally_all s [] = s
tally_all s (n ∷ ns) = tally_all (tally s n.status) ns

unfoldable pub stats : DagGraph → DagStats
unfolding tally_all
stats g =
    tally_all (record { total = 0; pending = 0; in_progress = 0; done = 0; failed = 0 })
      (values g.nodes)
