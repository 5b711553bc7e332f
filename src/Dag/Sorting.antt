-- ===== src/Dag/Sorting.antt =====
-- src/dag/graph.rs: `topological_sort`, Kahn's algorithm. The map of in-degrees is a function from
-- identifiers to numbers; its keys are those of the graph, read in the same order. A degree is at most the length of a list
-- in memory, so that the count does not wrap.
pub mod Counting
pub mod Degrees
pub mod Waiting
pub mod Rounds
pub mod Order
pub mod Answers
pub mod Acceptance
mod Examples
use aros_kernel.Prelude.{
  ℕ, zero, suc, ◌+◌, ◌≡◌, String, Bool, true, false, not, ◌&&◌, Option, none, some, List, [], ◌∷◌,
  ◌++◌, if◌then◌else◌, string_eq, nat_beq, ◌==◌, contains, filter, length, u64_max,
}
use aros_kernel.Prelude.Map.{lookup, contains_key, keys, values}
use aros_kernel.Prelude.Result.{Result, ok, err}
use aros_kernel.Dag.Graph.{Node, Nodes, DagGraph, DagError, cycle_detected}

abbrev pub InDegree : Type 0
InDegree = String → ℕ

-- The inner loop of the count: one more for each dependency that is in the graph.
unfoldable pub count_deps : Nodes → String → List String → InDegree → InDegree
count_deps nodes id [] degree = degree
count_deps nodes id (dep ∷ deps) degree =
    count_deps nodes id deps
      (if contains_key dep nodes then (λ k. if id == k then degree k + 1 else degree k) else degree)

unfoldable pub count_all : Nodes → List Node → InDegree → InDegree
unfolding count_deps
count_all nodes [] degree = degree
count_all nodes (n ∷ ns) degree = count_all nodes ns (count_deps nodes n.id n.depends_on degree)

-- `-= 1` of a `usize`.
abbrev pub decrement : ℕ → ℕ
decrement zero = u64_max
decrement (suc n) = n

-- The loop over the nodes after `id` is sorted: the degrees, and the identifiers that are pushed.
unfoldable pub relax : String → List Node → InDegree → InDegree × List String
relax id [] degree = (degree, [])
relax id (n ∷ ns) degree =
    if contains n.depends_on id
    then (let deg = decrement (degree n.id) in
        let (degree', pushed) = relax id ns (λ k. if n.id == k then deg else degree k) in
        (degree', if nat_beq deg 0 then n.id ∷ pushed else pushed))
    else relax id ns degree

-- The loop over the queue; `none` is the end of the fuel.
unfoldable pub sort_from : List Node → ℕ → List String → InDegree → Option (List String)
unfolding relax
sort_from ns zero queue degree = none
sort_from ns (suc fuel) [] degree = some []
sort_from ns (suc fuel) (id ∷ queue) degree =
    let (degree', pushed) = relax id ns degree in
    elim (sort_from ns fuel (queue ++ pushed) degree') [
      | none ↦ none
      | some sorted ↦ some (id ∷ sorted)
    ]

-- The first key that is not sorted.
abbrev pub find_stuck : List String → List String → Option String
find_stuck sorted [] = none
find_stuck sorted (id ∷ ids) = if contains sorted id then find_stuck sorted ids else some id

-- `none` is the end of the fuel, or the panic where no key is stuck.
unfoldable pub topological_sort : DagGraph → Option (Result (List String) DagError)
unfolding sort_from count_all
topological_sort g =
    let degree = count_all g.nodes (values g.nodes) (λ k. 0) in
    let queue = filter (λ id. nat_beq (degree id) 0) (keys g.nodes) in
    elim (sort_from (values g.nodes) (suc (length g.nodes)) queue degree) [
      | none ↦ none
      | some sorted ↦
          if nat_beq (length sorted) (length g.nodes)
          then some (ok sorted)
          else elim (find_stuck sorted (keys g.nodes)) [
            | none ↦ none
            | some stuck ↦ some (err (cycle_detected stuck))
          ]
    ]
