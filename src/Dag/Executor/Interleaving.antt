-- ===== src/Dag/Executor/Interleaving.antt =====
-- The operations of src/dag/runtime.rs between the two locks of a tick of src/dag/executor.rs. Each
-- operation holds the write lock from its first read to its last write, so it is one step.
use aros_kernel.Prelude.{
  ℕ, String, ◌≡◌, refl, sym, ap, inl, inr, ◌⊎◌, ◌≢◌, some, List, [], ◌∷◌, map, take, arith,
  Option-cases, string_eq, In, In-take, In-map,
}
use aros_kernel.Prelude.Map.{lookup, lookup-modify, lookup-insert, lookup-remove}
use aros_kernel.Dag.Graph.{
  NodeStatus, pending, in_progress, done, Node, NodeResult, DagGraph, add_node, ready_nodes,
}
use aros_kernel.Dag.Graph
use aros_kernel.Dag.Graph.Mutation.{IsValid, add_node_outcomes, add_node-IsValid, remove_node_cases}
use aros_kernel.Dag.Graph.Status.{modify-IsValid}
use aros_kernel.Dag.Graph.Ready.{ready_nodes_iff, lookup-id}
use aros_kernel.Dag.Runtime.{remove_node, update_dependencies, set_deps}
use aros_kernel.Dag.Runtime.Update.{
  IsPending, update_dependencies_outcomes, update_dependencies-IsValid, runtime_remove_node,
}
use aros_kernel.Dag.Executor.{
  set_status, claim_all, claim, ExecutionResult, outcome_status, record_result, record_all,
}
use aros_kernel.Dag.Executor.Claim.{claim_sound, claim_all-absent, claim_all-present, marked}
use aros_kernel.Dag.Executor.Rounds.{claim_all-IsValid, record_all-IsValid}

-- What a caller may do to the graph while the tasks of a tick run.
pub data Edit : DagGraph → DagGraph → Type 0 where
  adds : (g : DagGraph) (node : Node) → Edit g (add_node node g).1
  removes : (g : DagGraph) (id : String) → Edit g (remove_node id g).1
  rewires :
      (g : DagGraph) (id : String) (deps : List String) → Edit g (update_dependencies id deps g).1

pub data Edits (g : DagGraph) : DagGraph → Type 0 where
  unchanged : Edits g g
  and_then : {h i : DagGraph} → Edits g h → Edit h i → Edits g i

-- Everything that changes the graph: edits, and the two critical sections of a tick.
pub data Step : DagGraph → DagGraph → Type 0 where
  edits : {g h : DagGraph} → Edit g h → Step g h
  claims : (g : DagGraph) (max_parallel : ℕ) → Step g (claim max_parallel g).0
  records : (g : DagGraph) (results : List ExecutionResult) → Step g (record_all results g)

pub data Steps (g : DagGraph) : DagGraph → Type 0 where
  none_yet : Steps g g
  followed_by : {h i : DagGraph} → Steps g h → Step h i → Steps g i

Edit-IsValid : {g h : DagGraph} → Edit g h → IsValid g → IsValid h
Edit-IsValid (adds g node) v = add_node-IsValid node g v
Edit-IsValid (removes g id) v = (runtime_remove_node id g v).1
Edit-IsValid (rewires g id deps) v = update_dependencies-IsValid id deps g v

Step-IsValid : {g h : DagGraph} → Step g h → IsValid g → IsValid h
Step-IsValid (edits e) v = Edit-IsValid e v
Step-IsValid (claims g max_parallel) v = unfold claim in claim_all-IsValid _ g v
Step-IsValid (records g results) v = record_all-IsValid results g v

-- From a valid graph every sequence of changes leads to a valid one: additions, removals and new
-- dependencies at run time, in any order and between any two critical sections of the executor.
pub Steps-IsValid : {g h : DagGraph} → Steps g h → IsValid g → IsValid h
Steps-IsValid none_yet v = v
Steps-IsValid (followed_by s t) v = Step-IsValid t (Steps-IsValid s v)

-- A node that an edit cannot touch: it is there and does not wait.
abbrev pub Holds : String → Node → DagGraph → Type 0
Holds k n g = (lookup k g.nodes ≡ some n) × (n.status ≢ pending)

adds-Holds :
    (g : DagGraph) (node : Node) (k : String) (n : Node)
    → Holds k n g
    → Holds k n (add_node node g).1
adds-Holds g node k n (here, busy) = elim (add_node_outcomes node g) [
  | inl (_, e) ↦ rw e (here, busy)
  | inr (inl (_, _, e)) ↦ rw e (here, busy)
  | inr (inr (new, _, e)) ↦
      rw e (ground (arith, lookup-insert node.id k node g.nodes, string_eq.beq_iff node.id k), busy)
]

removed-lookup :
    (g : DagGraph) (id k : String) (n : Node)
    → lookup k g.nodes ≡ some n
    → (k ≢ id)
    → lookup k (Graph.remove_node id g).1.nodes ≡ some n
removed-lookup g id k n here other = elim (remove_node_cases id g) [
  | inl e ↦ rw e here
  | inr (inl e) ↦ rw e here
  | inr (inr (w, stored, free, e)) ↦
      rw e (ground (arith, lookup-remove id k g.nodes, string_eq.beq_iff id k))
]

-- A node that waits is another one.
apart : (g : DagGraph) (id k : String) (n : Node) → IsPending id g → Holds k n g → k ≢ id
apart g id k n (node, found, waits) (here, busy) same = absurd (busy (cc))

removes-Holds :
    (g : DagGraph) (id : String) (k : String) (n : Node)
    → IsValid g
    → Holds k n g
    → Holds k n (remove_node id g).1
removes-Holds g id k n v (here, busy) = elim ((runtime_remove_node id g v).0) [
  | inl (_, e) ↦ rw e (here, busy)
  | inr (inl (_, e)) ↦ rw e (here, busy)
  | inr (inr (waits, e)) ↦
      rw e (removed-lookup g id k n here (apart g id k n waits (here, busy)), busy)
]

rewires-Holds :
    (g : DagGraph) (id : String) (deps : List String) (k : String) (n : Node)
    → Holds k n g
    → Holds k n (update_dependencies id deps g).1
rewires-Holds g id deps k n (here, busy) = elim (update_dependencies_outcomes id deps g) [
  | inl (_, e) ↦ rw e (here, busy)
  | inr (inl (_, e)) ↦ rw e (here, busy)
  | inr (inr (inl (_, _, e))) ↦ rw e (here, busy)
  | inr (inr (inr (waits, _, e))) ↦ rw e (rewired (apart g id k n waits (here, busy)), busy)
]
  where
    rewired : k ≢ id → lookup k (set_deps id deps g).nodes ≡ some n
    rewired other = ground (
      arith,
      lookup-modify id k (λ n. record n { depends_on = deps }) g.nodes,
      string_eq.beq_iff id k,
    )

Edit-Holds :
    {g h : DagGraph} (k : String) (n : Node) → Edit g h → IsValid g → Holds k n g → Holds k n h
Edit-Holds k n (adds g node) v = adds-Holds g node k n
Edit-Holds k n (removes g id) v = removes-Holds g id k n v
Edit-Holds k n (rewires g id deps) v = rewires-Holds g id deps k n

Edits-IsValid : {g h : DagGraph} → Edits g h → IsValid g → IsValid h
Edits-IsValid unchanged v = v
Edits-IsValid (and_then s t) v = Edit-IsValid t (Edits-IsValid s v)

Edits-Holds :
    {g h : DagGraph} (k : String) (n : Node) → Edits g h → IsValid g → Holds k n g → Holds k n h
Edits-Holds k n unchanged v held = held
Edits-Holds k n (and_then s t) v held =
    Edit-Holds k n t (Edits-IsValid s v) (Edits-Holds k n s v held)

-- To mark a node again changes nothing.
mark_again : (n : Node) → n.status ≡ in_progress → set_status in_progress n ≡ n
mark_again n e = ap (λ s. set_status s n) (sym e)

-- What `claim_all` leaves in the graph.
claim_all-keeps :
    (ids : List String) (g : DagGraph) (k : String) (n : Node)
    → lookup k g.nodes ≡ some n
    → (n.status ≡ in_progress) ⊎ (In k ids → ⊥)
    → lookup k (claim_all ids g).0.nodes ≡ some n
claim_all-keeps [] g k n here why = unfold claim_all in here
claim_all-keeps (id ∷ ids) g k n here why = elim (Option-cases (lookup id g.nodes)) [
  | inl gone ↦ rw (claim_all-absent id ids g gone) (claim_all-keeps ids g k n here (later why))
  | inr (w, found) ↦
      rw (claim_all-present id ids g w found)
        (claim_all-keeps ids (marked id ids g) k n (kept why) (later why))
]
  where
    later :
        (n.status ≡ in_progress) ⊎ (In k (id ∷ ids) → ⊥) → (n.status ≡ in_progress) ⊎ (In k ids → ⊥)
    later (inl e) = inl e
    later (inr out) = inr (λ i. out (inr i))

    kept :
        (n.status ≡ in_progress) ⊎ (In k (id ∷ ids) → ⊥) → lookup k (marked id ids g).nodes ≡ some n
    kept (inl e) = ground (
      arith,
      lookup-modify id k (set_status in_progress) g.nodes,
      string_eq.beq_iff id k,
      mark_again n e,
    )
    kept (inr out) =
        let other : k ≢ id = λ e. out (inl e) in
        ground (arith, lookup-modify id k (set_status in_progress) g.nodes, string_eq.beq_iff id k)

claim_all-stores :
    (ids : List String) (g : DagGraph) (n : Node)
    → IsValid g
    → In n (claim_all ids g).1
    → (lookup n.id (claim_all ids g).0.nodes ≡ some n) × (n.status ≡ in_progress)
claim_all-stores [] g n v i = absurd (unfold claim_all in i)
claim_all-stores (id ∷ ids) g n v i = elim (Option-cases (lookup id g.nodes)) [
  | inl gone ↦
      rw (claim_all-absent id ids g gone)
        (claim_all-stores ids g n v (rw (claim_all-absent id ids g gone) at i))
  | inr (w, found) ↦ rw (claim_all-present id ids g w found) (elim (shown w found) [
    | inr rest ↦ claim_all-stores ids (marked id ids g) n (marked-IsValid v) rest
    | inl same ↦ (
      claim_all-keeps ids (marked id ids g) n.id n (written w found same) (inl (rw same refl)),
      rw same refl,
    )
  ])
]
  where
    marked-IsValid : IsValid g → IsValid (marked id ids g)
    marked-IsValid = modify-IsValid id (set_status in_progress) (λ n. refl) (λ n. refl) g

    shown :
        (w : Node)
        → lookup id g.nodes ≡ some w
        → In n (set_status in_progress w ∷ (claim_all ids (marked id ids g)).1)
    shown w found = rw (claim_all-present id ids g w found) at i

    written :
        (w : Node)
        → lookup id g.nodes ≡ some w
        → n ≡ set_status in_progress w
        → lookup n.id (marked id ids g).nodes ≡ some n
    written w found same =
        let named : w.id ≡ id = v.named id w found in
        rw same (
          ground (
            arith,
            lookup-modify id w.id (set_status in_progress) g.nodes,
            string_eq.beq_iff id w.id,
          ))

-- A done node is not among those that a tick claims.
done_unclaimed :
    (max_parallel : ℕ) (g : DagGraph) (k : String) (n : Node)
    → IsValid g
    → lookup k g.nodes ≡ some n
    → n.status ≡ done
    → In k (map (λ (n : Node). n.id) (take max_parallel (ready_nodes g)))
    → ⊥
done_unclaimed max_parallel g k n v here is_done i =
    let (origin, j, named) = In-map (λ (n : Node). n.id) k (take max_parallel (ready_nodes g)) i in
    let (stored, ready) =
      (ready_nodes_iff g origin).0 (In-take max_parallel origin (ready_nodes g) j) in
    clash (lookup-id g origin v stored) ready.waits named
  where
    clash :
        {origin : Node}
        → lookup origin.id g.nodes ≡ some origin
        → origin.status ≡ pending
        → k ≡ origin.id
        → ⊥
    clash stored waits named = cc

module _ (max_parallel : ℕ) (g : DagGraph) (n : Node) (v : IsValid g)
    (i : In n (claim max_parallel g).1) where
  claim-IsValid : IsValid (claim max_parallel g).0
  claim-IsValid = unfold claim in claim_all-IsValid _ g v

  claimed-Holds : Holds n.id n (claim max_parallel g).0
  unfolding claim
  claimed-Holds =
      let (here, marks) =
        claim_all-stores (map (λ (n : Node). n.id) (take max_parallel (ready_nodes g))) g n v i in
      (here, λ waits. ground arith)

  dependency-Holds :
      (d : String)
      → In d n.depends_on
      → (dep : Node) × Holds d dep (claim max_parallel g).0 × (dep.status ≡ done)
  unfolding claim
  dependency-Holds d j =
      let (node, stored, ready, same) = (claim_sound max_parallel g v).1 n i in
      let (dep, here, is_done) = ready.deps_done d (rw same at j) in
      (
        dep,
        (
          claim_all-keeps _ g d dep here (inr (done_unclaimed max_parallel g d dep v here is_done)),
          λ waits. ground arith,
        ),
        is_done,
      )

recorded :
    (h : DagGraph) (n : Node) (er : ExecutionResult)
    → er.node_id ≡ n.id
    → lookup n.id h.nodes ≡ some n
    → lookup n.id (record_result er h).nodes
      ≡ some (record n { status = outcome_status er.result; result = some er.result })
unfolding record_result
recorded h n er named here = ground (
  arith,
  lookup-modify er.node_id n.id
      (λ n. record n { status = outcome_status er.result; result = some er.result }) h.nodes,
  string_eq.beq_iff er.node_id n.id,
)

-- While the tasks of a tick run, whatever is added, removed or rewired meanwhile: a dispatched node
-- is still stored as it was dispatched, and so is every one of its dependencies, each done; and
-- the result of its task is recorded in that node.
pub claimed_survive :
    (max_parallel : ℕ) (g h : DagGraph) (n : Node) (er : ExecutionResult)
    → IsValid g
    → In n (claim max_parallel g).1
    → Edits (claim max_parallel g).0 h
    → er.node_id ≡ n.id
    → (lookup n.id h.nodes ≡ some n)
      × ((d : String)
          → In d n.depends_on
          → (dep : Node) × (lookup d h.nodes ≡ some dep) × (dep.status ≡ done))
      × (lookup n.id (record_result er h).nodes
          ≡ some (record n { status = outcome_status er.result; result = some er.result }))
claimed_survive max_parallel g h n er v i s named =
    let valid = claim-IsValid max_parallel g n v i in
    let (here, busy) = Edits-Holds n.id n s valid (claimed-Holds max_parallel g n v i) in
    (
      here,
      λ d j.
          let (dep, held, is_done) = dependency-Holds max_parallel g n v i d j in
          (dep, (Edits-Holds d dep s valid held).0, is_done),
      recorded h n er named here,
    )
