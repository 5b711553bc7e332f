-- ===== src/Dag/Executor/Readiness.antt =====
-- Where src/dag/graph.rs finds a ready node: every dependency of a waiting node is in the graph,
-- and every node waits or is done.
use mathlib.Core.WellFounded.{Acc}
use mathlib.Core.Path.{subst}
use mathlib.Core.Bool.{false≢true}
use aros_kernel.Prelude.{
  String, ◌≡◌, refl, sym, inl, inr, ◌⊎◌, ◌≢◌, true, some, List, [], ◌∷◌, arith, Option-cases, In,
  string_eq, all_iff,
}
use aros_kernel.Prelude.Map.{lookup, values, contains_key, In-keys_of_lookup, In-values_of_lookup}
use aros_kernel.Dag.Graph.{
  pending, done, status_eq, Nodes, Node, DagGraph, deps_of, ready_nodes, is_complete,
}
use aros_kernel.Dag.Graph.Walks.{Grounded}
use aros_kernel.Dag.Graph.Detection.{Grounded-of_acyclic}
use aros_kernel.Dag.Graph.Mutation.{IsValid}
use aros_kernel.Dag.Graph.Ready.{ready_nodes_iff, lookup-id}

abbrev pub Settled : Node → Type 0
Settled n = (n.status ≡ pending) ⊎ (n.status ≡ done)

-- Every node that is not settled is one of those that `P` allows.
abbrev pub SettledBut : (String → Type 0) → DagGraph → Type 0
SettledBut P g = (k : String) (n : Node) → lookup k g.nodes ≡ some n → Settled n ⊎ P k

-- Every dependency is a node of the graph.
abbrev pub IsClosed : DagGraph → Type 0
IsClosed g = (a b : String) → In b (deps_of g.nodes a) → contains_key b g.nodes ≡ true

deps_of-lookup :
    (k : String) (nodes : Nodes) (n : Node)
    → lookup k nodes ≡ some n
    → deps_of nodes k ≡ n.depends_on
deps_of-lookup k nodes n here = rw (here, deps_of)

module _ (g : DagGraph) (v : IsValid g) (s : SettledBut (λ _. ⊥) g) (c : IsClosed g) where
  abbrev Waits : String → Type 0
  Waits k = (n : Node) × (lookup k g.nodes ≡ some n) × (n.status ≡ pending)

  abbrev IsDone : String → Type 0
  IsDone k = (n : Node) × (lookup k g.nodes ≡ some n) × (n.status ≡ done)

  -- Among nodes of the graph either all are done or one waits.
  scan :
      (ds : List String)
      → ((d : String) → In d ds → contains_key d g.nodes ≡ true)
      → ((d : String) → In d ds → IsDone d) ⊎ ((d : String) × In d ds × Waits d)
  scan [] known = inl (λ d i. absurd i)
  scan (d ∷ ds) known = elim (Option-cases (lookup d g.nodes)) [
    | inl gone ↦ absurd (false≢true (rw gone at (known d (inl refl))))
    | inr (n, here) ↦ elim (s d n here) [
      | inr impossible ↦ absurd impossible
      | inl (inl waits) ↦ inr (d, inl refl, (n, here, waits))
      | inl (inr is_done) ↦ elim (scan ds (λ e i. known e (inr i))) [
        | inl rest ↦ inl (λ e. elim [
          | inl same ↦ (n, subst (λ x. lookup x g.nodes ≡ some n) (sym same) here, is_done)
          | inr i ↦ rest e i
        ])
        | inr (e, i, w) ↦ inr (e, inr i, w)
      ]
    ]
  ]

  -- From a waiting node, follow the dependencies that wait, down to one that is ready.
  find_ready : (k : String) → Grounded g.nodes k → Waits k → (m : Node) × In m (ready_nodes g)
  find_ready k (Acc.intro _ below) (n, here, waits) = elim (scan (deps_of g.nodes k) (c k)) [
    | inl all_done ↦ (
      n,
      (ready_nodes_iff g n).1 (
        In-values_of_lookup k g.nodes n here,
        record {
          waits = waits;
          deps_done = λ d i. all_done d (subst (In d) (sym (deps_of-lookup k g.nodes n here)) i);
        },
      ),
    )
    | inr (d, i, w) ↦ find_ready d (below d (i, c k d i)) w
  ]

  not_waiting : ready_nodes g ≡ [] → (n : Node) → In n (values g.nodes) → n.status ≡ done
  not_waiting idle n i = elim (s n.id n here) [
    | inr impossible ↦ absurd impossible
    | inl (inr is_done) ↦ is_done
    | inl (inl waits) ↦
        let (m, j) =
          find_ready n.id
            (Grounded-of_acyclic g v.acyclic n.id (In-keys_of_lookup n.id g.nodes n here))
            (n, here, waits) in
        absurd (let k : In {A = Node} m [] = rw idle at j in k)
  ]
    where
      here : lookup n.id g.nodes ≡ some n
      here = lookup-id g n v i

  -- If no node is ready, every node is done.
  pub is_complete_of_idle : ready_nodes g ≡ [] → g.nodes ≢ [] → is_complete g ≡ true
  unfolding is_complete
  is_complete_of_idle idle some_node = ground (
    arith,
    (all_iff (λ (n : Node). status_eq n.status done) (values g.nodes)).1
        (λ n i. rw (not_waiting idle n i, status_eq) refl),
  )
