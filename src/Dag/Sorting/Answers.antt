-- ===== src/Dag/Sorting/Answers.antt =====
-- src/dag/graph.rs: what a list that the loop of `topological_sort` returns is.
use mathlib.Core.Bool.{false≢true}
use mathlib.Core.Path.{subst}
use aros_kernel.Prelude.{
  ℕ, ◌+◌, ◌≤◌, String, ◌≡◌, ◌≢◌, refl, sym, ap, ◌∙◌, true, false, not, ◌||◌, some, List, [], ◌∷◌,
  arith, inl, inr, string_eq, ◌==◌, contains, count_if, In, contains_iff, length, Bool-cases,
}
use aros_kernel.Prelude.Map.{contains_key, keys, UniqueKeys}
use aros_kernel.Dag.Graph.{Nodes, deps_of}
use aros_kernel.Dag.Sorting.{find_stuck}
use aros_kernel.Dag.Sorting.Counting.{Once}
use aros_kernel.Dag.Sorting.Waiting.{open_deps, open_in-has, ListsOnce}
use aros_kernel.Dag.Sorting.Order.{
  Ordered, Outcome, unseen, unseen-less, all_unseen, contains-keys, contains-none,
}

-- What is seen after the list, the last first.
abbrev pub after : List String → List String → List String
after seen [] = seen
after seen (id ∷ ids) = after (id ∷ seen) ids

after-contains :
    (seen sorted : List String) (k : String)
    → contains (after seen sorted) k ≡ (contains seen k || contains sorted k)
unfolding contains
after-contains seen [] k = ground arith
after-contains seen (id ∷ ids) k = after-contains (id ∷ seen) ids k ∙ ground arith

seen-cons :
    (seen : List String) (id k : String) → contains seen k ≡ true → contains (id ∷ seen) k ≡ true
unfolding contains
seen-cons seen id k h = ground arith

seen-head : (seen : List String) (id : String) → contains (id ∷ seen) id ≡ true
unfolding contains
seen-head seen id = ground (arith, string_eq.beq_iff id id)

module _ (nodes : Nodes) where
  closed_deps :
      (seen : List String) (id : String)
      → open_deps nodes seen id ≡ 0
      → (d : String) → In d (deps_of nodes id)
      → contains_key d nodes ≡ true
      → contains seen d ≡ true
  closed_deps seen id e d i here = elim (Bool-cases (contains seen d)) [
    | inl old ↦ old
    | inr new ↦ absurd (
        omega (
          arith,
          open_in-has nodes d seen (deps_of nodes id) here new
              ((contains_iff (deps_of nodes id) d).1 i),
        ))
  ]

  pub Outcome-Ordered :
      (seen sorted : List String) → Outcome nodes seen sorted → Ordered nodes seen sorted
  Outcome-Ordered seen [] o = tt
  Outcome-Ordered seen (id ∷ ids) o = (closed_deps seen id o.2, Outcome-Ordered (id ∷ seen) ids o.3)

  -- What the list adds is new.
  Outcome-fresh :
      (seen sorted : List String)
      → Outcome nodes seen sorted
      → (k : String) → contains seen k ≡ true
      → contains sorted k ≡ false
  unfolding contains
  Outcome-fresh seen [] o k old = refl
  Outcome-fresh seen (id ∷ ids) o k old = elim (Bool-cases (id == k)) [
    | inl same ↦
        absurd (false≢true (sym o.1 ∙ (ap (contains seen) ((string_eq.beq_iff id k).0 same) ∙ old)))
    | inr other ↦ ground (arith, Outcome-fresh (id ∷ seen) ids o.3 k (seen-cons seen id k old))
  ]

  pub Outcome-Once : (seen sorted : List String) → Outcome nodes seen sorted → Once sorted
  Outcome-Once seen [] o = tt
  Outcome-Once seen (id ∷ ids) o =
      (Outcome-fresh (id ∷ seen) ids o.3 id (seen-head seen id), Outcome-Once (id ∷ seen) ids o.3)

  pub Outcome-keys :
      (seen sorted : List String)
      → Outcome nodes seen sorted
      → (k : String) → contains sorted k ≡ true
      → contains_key k nodes ≡ true
  unfolding contains
  Outcome-keys seen [] o k h = absurd (ground arith)
  Outcome-keys seen (id ∷ ids) o k h = elim (Bool-cases (id == k)) [
    | inl same ↦ subst (λ x. contains_key x nodes ≡ true) ((string_eq.beq_iff id k).0 same) o.0
    | inr other ↦ Outcome-keys (id ∷ seen) ids o.3 k (ground arith)
  ]

  Outcome-size :
      UniqueKeys nodes
      → (seen sorted : List String) → Outcome nodes seen sorted
      → length sorted + unseen nodes (after seen sorted) ≡ unseen nodes seen
  Outcome-size u seen [] o = omega arith
  Outcome-size u seen (id ∷ ids) o =
      omega (arith, Outcome-size u (id ∷ seen) ids o.3, unseen-less nodes id seen u o.0 o.1)

  -- What is left waits for something that is left.
  pub Outcome-left :
      (seen sorted : List String)
      → Outcome nodes seen sorted
      → ListsOnce nodes
      → (k : String) → contains_key k nodes ≡ true
      → contains (after seen sorted) k ≡ false
      → 1 ≤ open_deps nodes (after seen sorted) k
  Outcome-left seen [] o lists = o lists
  Outcome-left seen (id ∷ ids) o lists = Outcome-left (id ∷ seen) ids o.3 lists

-- The count of the keys that are not in a list.
abbrev missing : List String → List String → ℕ
missing sorted ks = count_if (λ k. not (contains sorted k)) ks

missing-none :
    (sorted ks : List String)
    → missing sorted ks ≡ 0
    → (k : String) → contains ks k ≡ true
    → contains sorted k ≡ true
unfolding contains
missing-none sorted [] e k h = absurd (ground arith)
missing-none sorted (j ∷ ks) e k h = elim (Bool-cases (j == k)) [
  | inl same ↦ subst (λ x. contains sorted x ≡ true) ((string_eq.beq_iff j k).0 same) (ground arith)
  | inr other ↦ missing-none sorted ks (ground arith) k (ground arith)
]

missing-same :
    (a b ks : List String)
    → ((k : String) → contains a k ≡ contains b k)
    → missing a ks ≡ missing b ks
missing-same a b [] same = refl
missing-same a b (j ∷ ks) same = ground (arith, same j, missing-same a b ks same)

missing-all :
    (sorted ks : List String)
    → ((k : String) → contains ks k ≡ true → contains sorted k ≡ true)
    → missing sorted ks ≡ 0
unfolding contains
missing-all sorted [] h = refl
missing-all sorted (j ∷ ks) h =
    ground (arith, h j, string_eq.beq_iff j j, missing-all sorted ks (λ k i. h k (ground arith)))

-- A key is stuck, if one is missing.
pub find_stuck_lem :
    (sorted ks : List String)
    → 1 ≤ missing sorted ks
    → (k : String) × (find_stuck sorted ks ≡ some k)
      × (contains ks k ≡ true)
      × (contains sorted k ≡ false)
unfolding contains
find_stuck_lem sorted [] h = absurd (omega arith)
find_stuck_lem sorted (j ∷ ks) h = elim (Bool-cases (contains sorted j)) [
  | inl old ↦
      let (k, e, i, new) = find_stuck_lem sorted ks (ground arith) in
      (k, rw old e, ground arith, new)
  | inr new ↦ (j, rw new refl, ground (arith, string_eq.beq_iff j j), new)
]

module _ (nodes : Nodes) (u : UniqueKeys nodes) (sorted : List String)
    (o : Outcome nodes [] sorted) where
  pub contains-after : (k : String) → contains (after [] sorted) k ≡ contains sorted k
  contains-after k = after-contains [] sorted k ∙ rw (contains-none k) refl

  -- Each node is in the list or missing.
  pub size_lem : length sorted + missing sorted (keys nodes) ≡ length nodes
  size_lem =
      ap (λ n. length sorted + n)
        (sym (missing-same (after [] sorted) sorted (keys nodes) contains-after))
      ∙ (Outcome-size nodes u [] sorted o ∙ all_unseen nodes)

  pub full :
      length sorted ≡ length nodes
      → (k : String) → contains_key k nodes ≡ true
      → contains sorted k ≡ true
  full e k here =
      missing-none sorted (keys nodes) (omega (arith, size_lem)) k (contains-keys nodes k ∙ here)

  pub full_of_all :
      ((k : String) → contains_key k nodes ≡ true → contains sorted k ≡ true)
      → length sorted ≡ length nodes
  full_of_all h = omega (
    arith,
    size_lem,
    missing-all sorted (keys nodes) (λ k i. h k (sym (contains-keys nodes k) ∙ i)),
  )

  pub stuck :
      (length sorted ≢ length nodes)
      → (k : String) × (find_stuck sorted (keys nodes) ≡ some k)
        × (contains_key k nodes ≡ true)
        × (contains sorted k ≡ false)
  stuck short =
      let (k, e, i, new) = find_stuck_lem sorted (keys nodes) (omega (arith, size_lem)) in
      (k, e, sym (contains-keys nodes k) ∙ i, new)
