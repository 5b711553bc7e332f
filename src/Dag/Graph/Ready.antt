-- ===== src/Dag/Graph/Ready.antt =====
-- Which nodes `ready_nodes` of src/dag/graph.rs returns.
use mathlib.Core.Path.{subst}
use aros_kernel.Prelude.{
  String, ◌≡◌, sym, inl, inr, ◌↔◌, true, some, arith, Option-cases, string_eq, In, In-filter,
  In-filter_of, all_iff,
}
use aros_kernel.Prelude.Map.{lookup, values, lookup_of_In-values}
use aros_kernel.Dag.Graph.{
  NodeStatus, pending, done, Node, Nodes, DagGraph, status_eq, is_done_in, is_ready, ready_nodes,
}
use aros_kernel.Dag.Graph.Mutation.{IsValid}

-- What `ready_nodes` promises: the node waits, and every dependency is there and done.
pub record IsReady (nodes : Nodes) (n : Node) : Type 0 where
  pub waits : n.status ≡ pending
  pub deps_done :
      (d : String)
      → In d n.depends_on
      → (dep : Node) × (lookup d nodes ≡ some dep) × (dep.status ≡ done)

status_eq_pending : (s : NodeStatus) → (status_eq s pending ≡ true) ↔ (s ≡ pending)
status_eq_pending s = ground arith

status_eq_done : (s : NodeStatus) → (status_eq s done ≡ true) ↔ (s ≡ done)
status_eq_done s = ground arith

is_done_in_iff :
    (nodes : Nodes) (d : String)
    → (is_done_in nodes d ≡ true)
      ↔ ((dep : Node) × (lookup d nodes ≡ some dep) × (dep.status ≡ done))
unfolding is_done_in
is_done_in_iff nodes d = (
  λ h. elim (Option-cases (lookup d nodes)) [
    | inl gone ↦ cc (rw (gone, is_done_in) at h)
    | inr (dep, here) ↦ (dep, here, (status_eq_done dep.status).0 (rw (here, is_done_in) at h))
  ],
  λ (dep, here, is_done). rw (here, is_done_in) ((status_eq_done dep.status).1 is_done),
)

pub is_ready_iff : (nodes : Nodes) (n : Node) → (is_ready nodes n ≡ true) ↔ IsReady nodes n
unfolding is_ready
is_ready_iff nodes n = (
  λ h. record {
    waits = ground arith;
    deps_done = λ d i.
        (is_done_in_iff nodes d).0 ((all_iff (is_done_in nodes) n.depends_on).0 (ground arith) d i);
  },
  λ r. ground (
    arith,
    (all_iff (is_done_in nodes) n.depends_on).1
        (λ d i. (is_done_in_iff nodes d).1 (r.deps_done d i)),
    (status_eq_pending n.status).1 r.waits,
  ),
)

-- `ready_nodes` returns exactly the nodes of the graph that wait and whose every dependency is a
-- node of the graph that is done.
pub ready_nodes_iff :
    (g : DagGraph) (n : Node) → In n (ready_nodes g) ↔ (In n (values g.nodes) × IsReady g.nodes n)
unfolding ready_nodes
ready_nodes_iff g n = (
  λ i.
      let (here, ready) = In-filter (is_ready g.nodes) n (values g.nodes) i in
      (here, (is_ready_iff g.nodes n).0 ready),
  λ (here, ready).
      In-filter_of (is_ready g.nodes) n (values g.nodes) here ((is_ready_iff g.nodes n).1 ready),
)

pub lookup-id :
    (g : DagGraph) (n : Node) → IsValid g → In n (values g.nodes) → lookup n.id g.nodes ≡ some n
lookup-id g n v i =
    let (k, here) = lookup_of_In-values g.nodes n v.unique i in
    subst (λ x. lookup x g.nodes ≡ some n) (sym (v.named k n here)) here
