-- ===== src/Dag/Executor/Claim.antt =====
-- Which nodes a tick of src/dag/executor.rs dispatches.
use aros_kernel.Prelude.{
  ℕ, ◌≤◌, String, ◌≡◌, refl, ◌∙◌, ap, inl, inr, none, some, List, [], ◌∷◌, map, arith, Option-cases,
  string_eq, In, take, length, length-map, length-take-le, In-take, In-map,
}
use aros_kernel.Prelude.Map.{lookup, modify, values, lookup-modify}
use aros_kernel.Dag.Graph.{in_progress, Node, DagGraph, ready_nodes}
use aros_kernel.Dag.Graph.Mutation.{IsValid}
use aros_kernel.Dag.Graph.Ready.{IsReady, ready_nodes_iff, lookup-id}
use aros_kernel.Dag.Executor.{set_status, claim_all, claim}

-- `h` is `g` with some nodes marked as in progress.
abbrev Marked : DagGraph → DagGraph → Type 0
Marked g h =
    (k : String) (n' : Node)
    → lookup k h.nodes ≡ some n'
    → (n : Node) × (lookup k g.nodes ≡ some n)
      × (set_status in_progress n' ≡ set_status in_progress n)

Marked-step :
    (g h : DagGraph) (id : String)
    → Marked g h
    → Marked g (record { nodes = modify id (set_status in_progress) h.nodes })
Marked-step g h id m k n' here = elim (Option-cases (lookup k h.nodes)) [
  | inl gone ↦ absurd (ground (arith, lookup-modify id k (set_status in_progress) h.nodes))
  | inr (w, old) ↦
      let (n, origin, same) = m k w old in
      (n, origin, ground (arith, lookup-modify id k (set_status in_progress) h.nodes))
]

module _ (id : String) (ids : List String) (h : DagGraph) where
  pub claim_all-absent : lookup id h.nodes ≡ none → claim_all (id ∷ ids) h ≡ claim_all ids h
  unfolding claim_all
  claim_all-absent gone = rw (gone, claim_all)

  abbrev pub marked : DagGraph
  marked = record { nodes = modify id (set_status in_progress) h.nodes }

  pub claim_all-present :
      (node : Node)
      → lookup id h.nodes ≡ some node
      → claim_all (id ∷ ids) h
        ≡ ((claim_all ids marked).0, set_status in_progress node ∷ (claim_all ids marked).1)
  unfolding claim_all
  claim_all-present node here = rw (here, claim_all)

claim_all-In :
    (g : DagGraph) (ids : List String) (h : DagGraph) (n : Node)
    → Marked g h
    → In n (claim_all ids h).1
    → (id : String) × In id ids
      × (node : Node) × (lookup id g.nodes ≡ some node)
      × (n ≡ set_status in_progress node)
claim_all-In g [] h n m i = absurd (unfold claim_all in i)
claim_all-In g (id ∷ ids) h n m i = elim (Option-cases (lookup id h.nodes)) [
  | inl gone ↦
      let (k, j, node, found, e) =
        claim_all-In g ids h n m (rw (claim_all-absent id ids h gone) at i) in
      (k, inr j, node, found, e)
  | inr (w, here) ↦ elim (shown w here) [
    | inl same ↦ let (node, origin, e) = m id w here in (id, inl refl, node, origin, same ∙ e)
    | inr later ↦
        let (k, j, node, found, e) =
          claim_all-In g ids (marked id ids h) n (Marked-step g h id m) later in
        (k, inr j, node, found, e)
  ]
]
  where
    shown :
        (w : Node)
        → lookup id h.nodes ≡ some w
        → In n (set_status in_progress w ∷ (claim_all ids (marked id ids h)).1)
    shown w here = rw (claim_all-present id ids h w here) at i

claim_all-length : (ids : List String) (h : DagGraph) → length (claim_all ids h).1 ≤ length ids
unfolding claim_all
claim_all-length [] h = omega arith
claim_all-length (id ∷ ids) h =
    ground (arith, claim_all-length ids h, claim_all-length ids (marked id ids h))

-- A tick dispatches at most `max_parallel` nodes. Each is a node of the graph that was ready
-- (it waited, and all of its dependencies were done), now marked as in progress.
pub claim_sound :
    (max_parallel : ℕ) (g : DagGraph)
    → IsValid g
    → (length (claim max_parallel g).1 ≤ max_parallel)
      × ((n : Node)
          → In n (claim max_parallel g).1
          → (node : Node) × In node (values g.nodes)
            × IsReady g.nodes node
            × (n ≡ set_status in_progress node))
unfolding claim
claim_sound max_parallel g v = (
  omega (
    arith,
    claim_all-length (map (λ (n : Node). n.id) (take max_parallel (ready_nodes g))) g,
    length-map (λ (n : Node). n.id) (take max_parallel (ready_nodes g)),
    length-take-le max_parallel (ready_nodes g),
  ),
  λ n i.
      let (id, j, node, here, e) =
        claim_all-In g (map (λ (n : Node). n.id) (take max_parallel (ready_nodes g))) g n
          (λ k n' h. (n', h, refl)) i in
      let (origin, k, named) =
        In-map (λ (n : Node). n.id) id (take max_parallel (ready_nodes g)) j in
      let (stored, ready) =
        (ready_nodes_iff g origin).0 (In-take max_parallel origin (ready_nodes g) k) in
      (
        origin,
        stored,
        ready,
        e ∙ ap (set_status in_progress) (same_node id node origin here named stored),
      ),
)
  where
    same_node :
        (id : String) (node origin : Node)
        → lookup id g.nodes ≡ some node
        → id ≡ origin.id
        → In origin (values g.nodes)
        → node ≡ origin
    same_node id node origin here named stored = cc (lookup-id g origin v stored)
