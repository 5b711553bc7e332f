-- ===== src/Dag/Sorting/Acceptance.antt =====
-- src/dag/graph.rs: which graphs `topological_sort` sorts.
use mathlib.Core.Bool.{false≢true}
use mathlib.Core.WellFounded.{Acc}
use aros_kernel.Prelude.{
  ◌≤◌, String, ◌≡◌, ◌≢◌, sym, ◌∙◌, Bool, true, false, not, ◌&&◌, some, List, [], ◌∷◌, arith, inl,
  inr, ◌⊎◌, string_eq, nat_beq, contains, contains_iff, length, Bool-cases,
}
use aros_kernel.Prelude.Map.{contains_key, keys, UniqueKeys, In-keys_of_key}
use aros_kernel.Prelude.Result.{ok, err}
use aros_kernel.Dag.Graph.{Nodes, DagGraph, cycle_detected, deps_of}
use aros_kernel.Dag.Graph.Walks.{Grounded}
use aros_kernel.Dag.Graph.Detection.{Grounded-of_acyclic}
use aros_kernel.Dag.Graph.Mutation.{IsValid}
use aros_kernel.Dag.Sorting.{find_stuck, topological_sort}
use aros_kernel.Dag.Sorting.Counting.{Named, Once}
use aros_kernel.Dag.Sorting.Waiting.{open_in, ListsOnce}
use aros_kernel.Dag.Sorting.Order.{Ordered, Outcome, sort_ends}
use aros_kernel.Dag.Sorting.Answers.{
  after, Outcome-Ordered, Outcome-Once, Outcome-keys, Outcome-left, contains-after, full,
  full_of_all, stuck,
}

-- The keys of the graph, each once, behind those of its dependencies that are in the graph.
pub record IsSorting (nodes : Nodes) (sorted : List String) : Type 0 where
  pub once : Once sorted
  pub covers : (k : String) → contains sorted k ≡ contains_key k nodes
  pub ordered : Ordered nodes [] sorted

bool_same : (a b : Bool) → (a ≡ true → b ≡ true) → (b ≡ true → a ≡ true) → a ≡ b
bool_same a b f g = ground arith

module _ (g : DagGraph) (u : UniqueKeys g.nodes) (named : Named g.nodes) where
  abbrev run : List String
  run = (sort_ends g.nodes u named).0

  pub outcome : Outcome g.nodes [] run
  outcome = (sort_ends g.nodes u named).2

  run-full : length run ≡ length g.nodes → topological_sort g ≡ some (ok run)
  unfolding topological_sort
  run-full e = rw ((sort_ends g.nodes u named).1, topological_sort) (ground arith)

  run-short :
      (k : String)
      → (length run ≢ length g.nodes)
      → find_stuck run (keys g.nodes) ≡ some k
      → topological_sort g ≡ some (err (cycle_detected k))
  unfolding topological_sort
  run-short k short e = rw ((sort_ends g.nodes u named).1, topological_sort) (ground arith)

  run-IsSorting : length run ≡ length g.nodes → IsSorting g.nodes run
  run-IsSorting e = record {
    once = Outcome-Once g.nodes [] run outcome;
    covers =
        λ k. bool_same _ _ (Outcome-keys g.nodes [] run outcome k) (full g.nodes u run outcome e k);
    ordered = Outcome-Ordered g.nodes [] run outcome;
  }

  -- On any graph whose keys are unique and are the identifiers of their nodes, `topological_sort`
  -- ends without a panic. Either it returns the keys of the graph, each once, behind their
  -- dependencies that are in the graph, or it names a key of the graph in an error.
  pub topological_sort_outcomes :
      ((sorted : List String) × (topological_sort g ≡ some (ok sorted)) × IsSorting g.nodes sorted)
      ⊎ ((k : String) × (topological_sort g ≡ some (err (cycle_detected k)))
          × (contains_key k g.nodes ≡ true))
  topological_sort_outcomes = elim (Bool-cases (nat_beq (length run) (length g.nodes))) [
    | inl same ↦
        let e : length run ≡ length g.nodes = ground arith in inl (run, run-full e, run-IsSorting e)
    | inr other ↦
        let short : length run ≢ length g.nodes = λ e. ground arith in
        let (k, e, here, new) = stuck g.nodes u run outcome short in
        inr (k, run-short k short e, here)
  ]

open_in-some :
    (nodes : Nodes) (seen ds : List String)
    → 1 ≤ open_in nodes seen ds
    → (d : String) × (contains ds d ≡ true)
      × (contains_key d nodes ≡ true)
      × (contains seen d ≡ false)
unfolding contains
open_in-some nodes seen [] h = absurd (omega arith)
open_in-some nodes seen (d ∷ ds) h =
    elim (Bool-cases (contains_key d nodes && not (contains seen d))) [
      | inl left ↦ (d, ground (arith, string_eq.beq_iff d d), ground arith, ground arith)
      | inr gone ↦
          let (k, i, here, new) = open_in-some nodes seen ds (ground arith) in
          (k, ground arith, here, new)
    ]

module _ (g : DagGraph) (v : IsValid g) (lists : ListsOnce g.nodes) where
  sorts_all :
      (k : String)
      → Grounded g.nodes k
      → contains_key k g.nodes ≡ true
      → contains (run g v.unique v.named) k ≡ true
  sorts_all k (Acc.intro _ h) here = elim (Bool-cases (contains sorted k)) [
    | inl old ↦ old
    | inr new ↦
        let (d, i, key, left) = open_in-some g.nodes (after [] sorted) (deps_of g.nodes k) (
          Outcome-left g.nodes [] sorted o lists k here
            (contains-after g.nodes v.unique sorted o k ∙ new)) in
        absurd (
          false≢true (
            sym left
            ∙ (contains-after g.nodes v.unique sorted o d
                ∙ sorts_all d (h d ((contains_iff (deps_of g.nodes k) d).0 i, key)) key)))
  ]
    where
      sorted : List String
      sorted = run g v.unique v.named

      o : Outcome g.nodes [] sorted
      o = outcome g v.unique v.named

  -- On a valid graph where no node lists a dependency twice, `topological_sort` succeeds: it
  -- returns the keys of the graph, each once, behind their dependencies that are in the graph.
  pub topological_sort_succeeds :
      (sorted : List String) × (topological_sort g ≡ some (ok sorted)) × IsSorting g.nodes sorted
  topological_sort_succeeds =
      let e =
        full_of_all g.nodes v.unique (run g v.unique v.named) (outcome g v.unique v.named)
          (λ k here.
            sorts_all k (Grounded-of_acyclic g v.acyclic k (In-keys_of_key k g.nodes here)) here) in
      (run g v.unique v.named, run-full g v.unique v.named e, run-IsSorting g v.unique v.named e)
