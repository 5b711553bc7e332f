-- ===== src/Dag/Graph/Detection.antt =====
-- `has_cycle` of src/dag/graph.rs decides whether the dependencies of the graph have a cycle.
use aros_kernel.Prelude.{
  String, ◌≡◌, ◌↔◌, refl, inl, inr, Bool, true, false, Option, none, some, In, Bool-cases,
  string_eq,
}
use aros_kernel.Prelude.Map.{keys, contains_key, In-keys_of_key}
use aros_kernel.Dag.Graph.{Nodes, search, DagGraph, has_cycle}
use aros_kernel.Dag.Graph.Walks.{Walk, edge, onward, Grounded, Grounded-not-Walk_self, IsAcyclic}
use aros_kernel.Dag.Graph.Search.{Verdict, search_ends}

target_key : {nodes : Nodes} {a b : String} → Walk nodes a b → contains_key b nodes ≡ true
target_key (edge e) = e.1
target_key (onward p e) = e.1

IsAcyclic-of_Grounded :
    (nodes : Nodes) → ((v : String) → In v (keys nodes) → Grounded nodes v) → IsAcyclic nodes
IsAcyclic-of_Grounded nodes h v p =
    Grounded-not-Walk_self v (h v (In-keys_of_key v nodes (target_key p))) p

search_result :
    (nodes : Nodes) (r : Option Bool)
    → Verdict nodes (keys nodes) r
    → r ≡ some (elim r [ none ↦ true | some found ↦ found ])
search_result nodes none h = absurd h
search_result nodes (some found) h = refl

-- One unit of fuel for each node is enough: the search always returns an answer, and it is the
-- answer of `has_cycle`.
pub search-has_cycle : (g : DagGraph) → search g.nodes ≡ some (has_cycle g)
unfolding has_cycle
search-has_cycle g = search_result g.nodes (search g.nodes) (search_ends g.nodes)

-- What each of the two answers says.
pub has_cycle_decides :
    (g : DagGraph)
    → (has_cycle g ≡ true → (v : String) × Walk g.nodes v v)
      × (has_cycle g ≡ false → IsAcyclic g.nodes)
has_cycle_decides g = (
  λ h. rw (search-has_cycle g, h) at (search_ends g.nodes),
  λ h. IsAcyclic-of_Grounded g.nodes (rw (search-has_cycle g, h) at (search_ends g.nodes)),
)

-- `has_cycle` answers true exactly if some node depends on itself through a chain of dependencies
-- inside the graph.
pub has_cycle_iff : (g : DagGraph) → (has_cycle g ≡ true) ↔ ((v : String) × Walk g.nodes v v)
has_cycle_iff g = (
  (has_cycle_decides g).0,
  λ (v, p). elim (Bool-cases (has_cycle g)) [
    | inl found ↦ found
    | inr clear ↦ absurd ((has_cycle_decides g).1 clear v p)
  ],
)

-- An acyclic graph is passed.
pub has_cycle_of_acyclic : (g : DagGraph) → IsAcyclic g.nodes → has_cycle g ≡ false
has_cycle_of_acyclic g a = elim (Bool-cases (has_cycle g)) [
  | inl h ↦ let (v, p) = (has_cycle_decides g).0 h in absurd (a v p)
  | inr h ↦ h
]

-- In an acyclic graph every chain of dependencies ends.
pub Grounded-of_acyclic :
    (g : DagGraph) → IsAcyclic g.nodes → (v : String) → In v (keys g.nodes) → Grounded g.nodes v
Grounded-of_acyclic g a = rw (search-has_cycle g, has_cycle_of_acyclic g a) at (search_ends g.nodes)
