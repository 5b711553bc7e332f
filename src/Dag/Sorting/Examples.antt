-- ===== src/Dag/Sorting/Examples.antt =====
-- The topological sort of src/dag/graph.rs at small graphs.
use aros_kernel.Prelude.{
  String, ◌≡◌, ◌⊎◌, refl, true, some, List, [], ◌∷◌, inl, inr, ◌==◌, string_eq, contains,
  Bool-cases,
}
use aros_kernel.Prelude.Map.{lookup, contains_key}
use aros_kernel.Prelude.Result.{ok, err}
use aros_kernel.Dag.Graph.{DagGraph, cycle_detected, deps_of}
use aros_kernel.Dag.Examples.{task, chain, chain-IsValid}
use aros_kernel.Dag.Sorting.{topological_sort}
use aros_kernel.Dag.Sorting.Waiting.{ListsOnce}
use aros_kernel.Dag.Sorting.Acceptance.{
  IsSorting, topological_sort_outcomes, topological_sort_succeeds,
}

sorts_chain : topological_sort chain ≡ some (ok ("build" ∷ "ship" ∷ []))
unfolding topological_sort lookup contains
sorts_chain = refl

abbrev ring : DagGraph
ring = record {
  nodes = ("build", task "build" ("ship" ∷ [])) ∷ ("ship", task "ship" ("build" ∷ [])) ∷ [];
}

refuses_ring : topological_sort ring ≡ some (err (cycle_detected "build"))
unfolding topological_sort lookup contains
refuses_ring = refl

-- A dependency that is listed twice is counted twice, and lowered once.
abbrev twice : DagGraph
twice = record {
  nodes = ("build", task "build" []) ∷ ("ship", task "ship" ("build" ∷ "build" ∷ [])) ∷ [];
}

refuses_twice : topological_sort twice ≡ some (err (cycle_detected "ship"))
unfolding topological_sort lookup contains
refuses_twice = refl

chain-ListsOnce : ListsOnce chain.nodes
unfolding lookup contains
chain-ListsOnce k = elim (Bool-cases ("build" == k)) [
  | inl same ↦ rw (same, deps_of) tt
  | inr other ↦ elim (Bool-cases ("ship" == k)) [
    | inl same ↦ rw (other, same, deps_of) (refl, tt)
    | inr neither ↦ rw (other, neither, deps_of) tt
  ]
]

topological_sort_outcomes_example :
    ((sorted : List String) × (topological_sort chain ≡ some (ok sorted))
      × IsSorting chain.nodes sorted)
    ⊎ ((k : String) × (topological_sort chain ≡ some (err (cycle_detected k)))
        × (contains_key k chain.nodes ≡ true))
topological_sort_outcomes_example =
    topological_sort_outcomes chain chain-IsValid.unique chain-IsValid.named

topological_sort_succeeds_example :
    (sorted : List String) × (topological_sort chain ≡ some (ok sorted))
    × IsSorting chain.nodes sorted
topological_sort_succeeds_example = topological_sort_succeeds chain chain-IsValid chain-ListsOnce
