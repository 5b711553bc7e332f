-- ===== src/Dag/Sorting/Counting.antt =====
-- src/dag/graph.rs: the in-degrees that `topological_sort` starts from.
use aros_kernel.Prelude.{
  ℕ, ◌+◌, String, ◌≡◌, refl, true, false, none, some, List, [], ◌∷◌, arith, inl, inr, sym, ap, ◌∙◌,
  Bool-cases, if◌then◌else◌, string_eq, ◌==◌, contains, count_if,
}
use aros_kernel.Prelude.Map.{lookup, contains_key, values, UniqueKeys}
use aros_kernel.Dag.Graph.{Node, Nodes, deps_of}
use aros_kernel.Dag.Sorting.{InDegree, count_deps, count_all}

-- Each node is stored under its own identifier.
abbrev pub Named : Nodes → Type 0
Named m = (k : String) (n : Node) → lookup k m ≡ some n → n.id ≡ k

-- No text twice.
abbrev pub Once : List String → Type 0
Once [] = Unit
Once (x ∷ xs) = (contains xs x ≡ false) × Once xs

pub Named-head : (j : String) (w : Node) (m : Nodes) → Named ((j, w) ∷ m) → w.id ≡ j
unfolding lookup
Named-head j w m named = named j w (ground (arith, string_eq.beq_iff j j))

pub Named-tail :
    (j : String) (w : Node) (m : Nodes) → lookup j m ≡ none → Named ((j, w) ∷ m) → Named m
unfolding lookup
Named-tail j w m gone named k n h = named k n (ground (arith, string_eq.beq_iff j k))

-- The dependencies of a key, by where it is stored.
module _ (j k : String) (w : Node) (m : Nodes) where
  pub deps_of-head : (j == k) ≡ true → deps_of ((j, w) ∷ m) k ≡ w.depends_on
  unfolding lookup
  deps_of-head same = rw (same, deps_of) refl

  pub deps_of-tail : (j == k) ≡ false → deps_of ((j, w) ∷ m) k ≡ deps_of m k
  unfolding lookup
  deps_of-tail other = rw (other, deps_of) refl

  pub deps_of-gone : (j == k) ≡ true → lookup j m ≡ none → deps_of m k ≡ []
  deps_of-gone same gone =
      rw (ap (λ x. lookup x m) (sym ((string_eq.beq_iff j k).0 same)) ∙ gone, deps_of) refl

-- How many dependencies in the list are in the graph.
abbrev pub inside : Nodes → List String → ℕ
inside nodes ds = count_if (λ d. contains_key d nodes) ds

count_deps_lem :
    (nodes : Nodes) (id : String) (ds : List String) (degree : InDegree) (k : String)
    → count_deps nodes id ds degree k ≡ degree k + (if id == k then inside nodes ds else 0)
unfolding count_deps
count_deps_lem nodes id [] degree k = ground arith
count_deps_lem nodes id (d ∷ ds) degree k = elim (Bool-cases (contains_key d nodes)) [
  | inl here ↦ rw here (
      ground
        (arith, count_deps_lem nodes id ds (λ k. if id == k then degree k + 1 else degree k) k))
  | inr gone ↦ rw gone (ground (arith, count_deps_lem nodes id ds degree k))
]

-- The count gives each node the number of its dependencies that are in the graph.
pub count_all_lem :
    (nodes m : Nodes) (degree : InDegree) (k : String)
    → UniqueKeys m
    → Named m
    → count_all nodes (values m) degree k ≡ degree k + inside nodes (deps_of m k)
unfolding count_all lookup
count_all_lem nodes [] degree k u named = omega arith
count_all_lem nodes ((j, w) ∷ m) degree k u named =
    count_all_lem nodes m (count_deps nodes w.id w.depends_on degree) k u.1
      (Named-tail j w m u.0 named)
    ∙ (ap (λ d. d + inside nodes (deps_of m k)) (count_deps_lem nodes w.id w.depends_on degree k)
        ∙ split)
  where
    head : w.id ≡ j
    head = Named-head j w m named

    split :
        degree k + (if w.id == k then inside nodes w.depends_on else 0) + inside nodes (deps_of m k)
        ≡ degree k + inside nodes (deps_of ((j, w) ∷ m) k)
    split = elim (Bool-cases (j == k)) [
      | inl same ↦
          rw
            (ap (λ x. x == k) head ∙ same, deps_of-head j k w m same, deps_of-gone j k w m same u.0)
            (omega arith)
      | inr other ↦ rw (ap (λ x. x == k) head ∙ other, deps_of-tail j k w m other) (omega arith)
    ]
