-- ===== src/Dag/Graph/Mutation.antt =====
-- `add_node` and `remove_node` of src/dag/graph.rs keep the graph a map without cycles.
use aros_kernel.Prelude.{
  String, ◌≡◌, ◌∙◌, inl, inr, ◌⊎◌, ◌≢◌, true, false, none, some, [], ◌∷◌, arith, Bool-cases,
  Option-cases, string_eq, ◌==◌, contains, if◌then◌else◌,
}
use aros_kernel.Prelude.Map.{
  lookup, insert, remove, contains_key, UniqueKeys, remove-insert, UniqueKeys-insert,
  UniqueKeys-remove, lookup-remove, lookup-insert,
}
use aros_kernel.Prelude.Result.{Result, ok, err}
use aros_kernel.Dag.Graph.{
  Node, Nodes, DagError, duplicate_node, cycle_detected, node_not_found, has_dependents, DagGraph,
  has_cycle, add_node, remove_node, is_depended_on,
}
use aros_kernel.Dag.Graph.Walks.{Edge, Walk, IsAcyclic, IsAcyclic-mono}
use aros_kernel.Dag.Graph.Detection.{has_cycle_decides}

-- What every operation keeps: a node is stored under its own identifier, once, and no node
-- depends on itself through other nodes.
pub record IsValid (g : DagGraph) : Type 0 where
  pub unique : UniqueKeys g.nodes
  pub named : (k : String) (n : Node) → lookup k g.nodes ≡ some n → n.id ≡ k
  pub acyclic : IsAcyclic g.nodes

-- The result of `add_node`, by the guard that decides it.
abbrev grown : Node → DagGraph → DagGraph
grown node g = record { nodes = insert node.id node g.nodes }

absent : (k : String) (g : DagGraph) → contains_key k g.nodes ≡ false → lookup k g.nodes ≡ none
absent k g h = ground arith

add_node-duplicate :
    (node : Node) (g : DagGraph)
    → contains_key node.id g.nodes ≡ true
    → add_node node g ≡ (err (duplicate_node node.id), g)
unfolding add_node
add_node-duplicate node g h = rw h

add_node-cycle :
    (node : Node) (g : DagGraph)
    → contains_key node.id g.nodes ≡ false
    → has_cycle (grown node g) ≡ true
    → add_node node g ≡ (err (cycle_detected node.id), g)
unfolding add_node
add_node-cycle node g h c = rw (h, c, remove-insert node.id node g.nodes (absent node.id g h))

add_node-ok :
    (node : Node) (g : DagGraph)
    → contains_key node.id g.nodes ≡ false
    → has_cycle (grown node g) ≡ false
    → add_node node g ≡ (ok tt, grown node g)
unfolding add_node
add_node-ok node g h c = rw (h, c)

grown-IsValid :
    (node : Node) (g : DagGraph)
    → IsValid g
    → has_cycle (grown node g) ≡ false
    → IsValid (grown node g)
grown-IsValid node g v c = record {
  unique = UniqueKeys-insert node.id node g.nodes v.unique;
  named = λ k n h.
      ground
        (arith, lookup-insert node.id k node g.nodes, string_eq.beq_iff node.id k, v.named k n);
  acyclic = (has_cycle_decides (grown node g)).1 c;
}

-- `add_node` refuses an identifier that is in use, and a node that would close a cycle: the error
-- names the node and the graph is the one from before, in the same order. In every other case
-- it returns the graph with the node inserted.
pub add_node_outcomes :
    (node : Node) (g : DagGraph)
    → ((contains_key node.id g.nodes ≡ true)
        × (add_node node g ≡ (err (duplicate_node node.id), g)))
      ⊎ ((contains_key node.id g.nodes ≡ false)
          × ((v : String) × Walk (insert node.id node g.nodes) v v)
          × (add_node node g ≡ (err (cycle_detected node.id), g)))
      ⊎ ((contains_key node.id g.nodes ≡ false)
          × IsAcyclic (insert node.id node g.nodes)
          × (add_node node g ≡ (ok tt, record { nodes = insert node.id node g.nodes })))
add_node_outcomes node g = elim (Bool-cases (contains_key node.id g.nodes)) [
  | inl old ↦ inl (old, add_node-duplicate node g old)
  | inr new ↦ elim (Bool-cases (has_cycle (grown node g))) [
    | inl found ↦
        inr (inl (new, (has_cycle_decides (grown node g)).0 found, add_node-cycle node g new found))
    | inr clear ↦
        inr (inr (new, (has_cycle_decides (grown node g)).1 clear, add_node-ok node g new clear))
  ]
]

-- `add_node` keeps a valid graph valid, whatever it returns.
pub add_node-IsValid : (node : Node) (g : DagGraph) → IsValid g → IsValid (add_node node g).1
add_node-IsValid node g v = elim (Bool-cases (contains_key node.id g.nodes)) [
  | inl old ↦ rw (add_node-duplicate node g old) v
  | inr new ↦ elim (Bool-cases (has_cycle (grown node g))) [
    | inl found ↦ rw (add_node-cycle node g new found) v
    | inr clear ↦ rw (add_node-ok node g new clear) (grown-IsValid node g v clear)
  ]
]

-- A removal takes dependencies away and adds none.
deps_of-remove :
    (id : String) (nodes : Nodes) (a b : String) → Edge (remove id nodes) a b → Edge nodes a b
deps_of-remove id nodes a b e = ground (arith, lookup-remove id a nodes, lookup-remove id b nodes)

removed-IsValid :
    (id : String) (g : DagGraph) → IsValid g → IsValid (record { nodes = remove id g.nodes })
removed-IsValid id g v = record {
  unique = UniqueKeys-remove id g.nodes v.unique;
  named = λ k n h. v.named k n (ground (arith, lookup-remove id k g.nodes));
  acyclic = IsAcyclic-mono (deps_of-remove id g.nodes) v.acyclic;
}

not_depended_on :
    (id : String) (nodes : Nodes) (k : String) (n : Node)
    → is_depended_on id nodes ≡ false
    → lookup k nodes ≡ some n
    → k ≢ id
    → contains n.depends_on id ≡ false
unfolding is_depended_on lookup
not_depended_on id [] k n h e other = cc
not_depended_on id ((j, w) ∷ nodes) k n h e other =
    ground (arith, string_eq.beq_iff j k, string_eq.beq_iff j id, not_depended_on id nodes k n)

-- The three ways out of `remove_node`.
pub remove_node_cases :
    (id : String) (g : DagGraph)
    → (remove_node id g ≡ (err (node_not_found id), g))
      ⊎ (remove_node id g ≡ (err (has_dependents id), g))
      ⊎ ((node : Node) × (lookup id g.nodes ≡ some node)
          × (is_depended_on id g.nodes ≡ false)
          × (remove_node id g ≡ (ok node, record { nodes = remove id g.nodes })))
unfolding remove_node
remove_node_cases id g = elim (Option-cases (lookup id g.nodes)) [
  | inl gone ↦ inl (rw (gone, remove_node))
  | inr (node, here) ↦ elim (Bool-cases (is_depended_on id g.nodes)) [
    | inl used ↦ inr (inl (rw (here, used, remove_node)))
    | inr free ↦ inr (inr (node, here, free, rw (here, free, remove_node)))
  ]
]

-- `remove_node` keeps a valid graph valid, whatever it returns.
pub remove_node-IsValid : (id : String) (g : DagGraph) → IsValid g → IsValid (remove_node id g).1
remove_node-IsValid id g v = elim (remove_node_cases id g) [
  | inl e ↦ rw e v
  | inr (inl e) ↦ rw e v
  | inr (inr (node, here, free, e)) ↦ rw e (removed-IsValid id g v)
]

-- When `remove_node` returns a node, it is the one that was stored under the identifier; it is
-- gone, every other entry is as before, and no node that is left depends on it.
pub remove_node_outcome :
    (id : String) (g : DagGraph) (node : Node)
    → (remove_node id g).0 ≡ ok node
    → (lookup id g.nodes ≡ some node)
      × ((k : String)
          → lookup k (remove_node id g).1.nodes ≡ (if id == k then none else lookup k g.nodes))
      × ((k : String) (n : Node)
          → lookup k (remove_node id g).1.nodes ≡ some n
          → contains n.depends_on id ≡ false)
remove_node_outcome id g node h = elim (remove_node_cases id g) [
  | inl e ↦ cc (rw e at h)
  | inr (inl e) ↦ cc (rw e at h)
  | inr (inr (found, here, free, e)) ↦ rw e (
    here ∙ same (rw e at h),
    λ k. lookup-remove id k g.nodes,
    λ k n left. ground (
      arith,
      lookup-remove id k g.nodes,
      string_eq.beq_iff id k,
      not_depended_on id g.nodes k n free,
    ),
  )
]
  where
    same :
        {found : Node}
        → ◌≡◌ {A = Result Node DagError} (ok found) (ok node)
        → some found ≡ some node
    same q = cc

-- `remove_node` returns an error exactly if there is no such node or another node depends on it,
-- and then it leaves the graph as it was.
pub remove_node_refuses :
    (id : String) (g : DagGraph) (e : DagError)
    → (remove_node id g).0 ≡ err e
    → ((lookup id g.nodes ≡ none) × (e ≡ node_not_found id)
        ⊎ (is_depended_on id g.nodes ≡ true) × (e ≡ has_dependents id))
      × ((remove_node id g).1 ≡ g)
unfolding remove_node
remove_node_refuses id g e h = ground arith
