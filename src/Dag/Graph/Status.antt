-- ===== src/Dag/Graph/Status.antt =====
-- Writes through `get_node_mut` of src/dag/graph.rs that leave the dependencies alone.
use aros_kernel.Prelude.{String, ◌≡◌, inl, inr, some, arith, Option-cases, string_eq}
use aros_kernel.Prelude.Map.{lookup, modify, UniqueKeys-modify, lookup-modify}
use aros_kernel.Dag.Graph.{Node, Nodes, DagGraph, deps_of}
use aros_kernel.Dag.Graph.Walks.{Edge, IsAcyclic-mono}
use aros_kernel.Dag.Graph.Mutation.{IsValid}

-- A write that keeps identifiers keeps each node under its own.
pub modify_named :
    (id : String) (f : Node → Node)
    → ((n : Node) → (f n).id ≡ n.id)
    → (nodes : Nodes) → ((k : String) (n : Node) → lookup k nodes ≡ some n → n.id ≡ k)
    → (k : String) (n : Node) → lookup k (modify id f nodes) ≡ some n
    → n.id ≡ k
modify_named id f keep nodes named k n h = elim (Option-cases (lookup k nodes)) [
  | inl gone ↦ ground (arith, lookup-modify id k f nodes)
  | inr (w, here) ↦ ground (arith, lookup-modify id k f nodes, keep w, named k w here)
]

module _ (id : String) (f : Node → Node) (same_id : (n : Node) → (f n).id ≡ n.id)
    (same_deps : (n : Node) → (f n).depends_on ≡ n.depends_on) where
  pub deps_of-modify :
      (nodes : Nodes) (a : String) → deps_of (modify id f nodes) a ≡ deps_of nodes a
  deps_of-modify nodes a = elim (Option-cases (lookup a nodes)) [
    | inl gone ↦ ground (arith, lookup-modify id a f nodes)
    | inr (w, here) ↦ ground (arith, lookup-modify id a f nodes, same_deps w)
  ]

  Edge-modify : (nodes : Nodes) (a b : String) → Edge (modify id f nodes) a b → Edge nodes a b
  Edge-modify nodes a b (i, key) =
      (rw (deps_of-modify nodes a) at i, ground (arith, lookup-modify id b f nodes))

  pub modify-IsValid : (g : DagGraph) → IsValid g → IsValid (record { nodes = modify id f g.nodes })
  modify-IsValid g v = record {
    unique = UniqueKeys-modify id f g.nodes v.unique;
    named = modify_named id f same_id g.nodes v.named;
    acyclic = IsAcyclic-mono (Edge-modify g.nodes) v.acyclic;
  }
