-- ===== src/Dag/Sorting/Waiting.antt =====
-- src/dag/graph.rs: how many dependencies a node still waits for in `topological_sort`.
use mathlib.Core.Bool.{false≢true}
use aros_kernel.Prelude.{
  ℕ, suc, ◌≤◌, String, ◌≡◌, refl, sym, ◌∙◌, true, false, not, ◌&&◌, ◌||◌, List, [], ◌∷◌, ◌++◌,
  arith, inl, inr, string_eq, ◌==◌, contains, count_if, Bool-cases, Option-cases,
}
use aros_kernel.Prelude.Map.{lookup, contains_key}
use aros_kernel.Dag.Graph.{Nodes, deps_of}
use aros_kernel.Dag.Sorting.Counting.{Once}

-- How many dependencies in the list are in the graph and not among those seen.
abbrev pub open_in : Nodes → List String → List String → ℕ
open_in nodes seen ds = count_if (λ d. contains_key d nodes && not (contains seen d)) ds

module _ (nodes : Nodes) (id : String) (seen : List String) where
  pub open_in-miss :
      (ds : List String)
      → contains ds id ≡ false
      → open_in nodes (id ∷ seen) ds ≡ open_in nodes seen ds
  unfolding contains
  open_in-miss [] h = refl
  open_in-miss (d ∷ ds) h =
      ground (arith, open_in-miss ds, string_eq.beq_iff d id, string_eq.beq_iff id d)

  pub open_in-le : (ds : List String) → open_in nodes (id ∷ seen) ds ≤ open_in nodes seen ds
  unfolding contains
  open_in-le [] = omega arith
  open_in-le (d ∷ ds) = ground (arith, open_in-le ds)

  module _ (here : contains_key id nodes ≡ true) (new : contains seen id ≡ false) where
    pub open_in-hit :
        (ds : List String)
        → contains ds id ≡ true
        → suc (open_in nodes (id ∷ seen) ds) ≤ open_in nodes seen ds
    unfolding contains
    open_in-hit [] h = absurd (ground arith)
    open_in-hit (d ∷ ds) h = elim (Bool-cases (d == id)) [
      | inl same ↦ ground (arith, open_in-le ds, string_eq.beq_iff d id, string_eq.beq_iff id d)
      | inr other ↦ ground (arith, open_in-hit ds, string_eq.beq_iff d id, string_eq.beq_iff id d)
    ]

    pub open_in-Once :
        (ds : List String)
        → contains ds id ≡ true
        → Once ds
        → suc (open_in nodes (id ∷ seen) ds) ≡ open_in nodes seen ds
    unfolding contains
    open_in-Once [] h once = absurd (ground arith)
    open_in-Once (d ∷ ds) h once = elim (Bool-cases (d == id)) [
      | inl same ↦ ground (arith, open_in-miss ds, string_eq.beq_iff d id, string_eq.beq_iff id d)
      | inr other ↦ ground (arith, open_in-Once ds, string_eq.beq_iff d id, string_eq.beq_iff id d)
    ]

  -- A dependency that is left is counted.
  pub open_in-has :
      (ds : List String)
      → contains_key id nodes ≡ true
      → contains seen id ≡ false
      → contains ds id ≡ true
      → 1 ≤ open_in nodes seen ds
  unfolding contains
  open_in-has [] here new h = absurd (ground arith)
  open_in-has (d ∷ ds) here new h = ground (arith, open_in-has ds, string_eq.beq_iff d id)

-- No node lists a dependency twice.
abbrev pub ListsOnce : Nodes → Type 0
ListsOnce nodes = (k : String) → Once (deps_of nodes k)

abbrev pub open_deps : Nodes → List String → String → ℕ
open_deps nodes seen k = open_in nodes seen (deps_of nodes k)

pub contains-append :
    (xs ys : List String) (k : String) → contains (xs ++ ys) k ≡ (contains xs k || contains ys k)
unfolding contains
contains-append [] ys k = refl
contains-append (x ∷ xs) ys k = ground (arith, contains-append xs ys k)

pub Once-append :
    (xs ys : List String)
    → Once xs
    → Once ys
    → ((k : String) → contains xs k ≡ true → contains ys k ≡ false)
    → Once (xs ++ ys)
unfolding contains
Once-append [] ys ox oy apart = oy
Once-append (x ∷ xs) ys ox oy apart = (
  ground (arith, contains-append xs ys x, apart x, string_eq.beq_iff x x),
  Once-append xs ys ox.1 oy (λ k i. ground (arith, apart k)),
)

pub key_of_dep :
    (nodes : Nodes) (k id : String)
    → contains (deps_of nodes k) id ≡ true
    → contains_key k nodes ≡ true
unfolding contains
key_of_dep nodes k id h = elim (Option-cases (lookup k nodes)) [
  | inl gone ↦ absurd (
      false≢true
        (let i : contains (deps_of nodes k) id ≡ false = rw (gone, deps_of) refl in sym i ∙ h))
  | inr (n, here) ↦ rw here refl
]
