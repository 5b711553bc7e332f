-- ===== src/Dag/Sorting/Rounds.antt =====
-- src/dag/graph.rs: what holds before each round of `topological_sort`.
use mathlib.Core.Bool.{false≢true}
use mathlib.Core.Path.{subst}
use aros_kernel.Prelude.{
  ℕ, zero, suc, ◌≤◌, String, ◌≡◌, refl, sym, ap, ◌∙◌, true, false, List, ◌∷◌, ◌++◌, arith, inl, inr,
  ◌⊎◌, string_eq, nat_beq, ◌==◌, contains, Bool-cases,
}
use aros_kernel.Prelude.Map.{contains_key, values, UniqueKeys}
use aros_kernel.Dag.Graph.{Nodes, deps_of}
use aros_kernel.Dag.Sorting.{InDegree, decrement, relax}
use aros_kernel.Dag.Sorting.Degrees.{relax_degree, relax_pushed, relax-Once}
use aros_kernel.Dag.Sorting.Counting.{Named, Once}
use aros_kernel.Dag.Sorting.Waiting.{
  open_deps, ListsOnce, open_in-miss, open_in-le, open_in-hit, open_in-Once, open_in-has,
  contains-append, Once-append, key_of_dep,
}

-- Before a round: what is sorted (`seen`), what waits in the queue, and the degrees of the rest.
pub record Invariant (nodes : Nodes) (seen queue : List String) (degree : InDegree) : Type 0 where
  pub once : Once queue
  pub queued :
      (k : String)
      → contains queue k ≡ true
      → (contains_key k nodes ≡ true) × (contains seen k ≡ false) × (open_deps nodes seen k ≡ 0)
  pub sorted : (k : String) → contains seen k ≡ true → open_deps nodes seen k ≡ 0
  pub waiting :
      (k : String)
      → contains_key k nodes ≡ true
      → contains seen k ≡ false
      → contains queue k ≡ false
      → (1 ≤ degree k) × (open_deps nodes seen k ≤ degree k)
  pub exact :
      ListsOnce nodes
      → (k : String) → contains_key k nodes ≡ true
      → contains seen k ≡ false
      → contains queue k ≡ false
      → degree k ≡ open_deps nodes seen k

module _ (nodes : Nodes) (u : UniqueKeys nodes) (named : Named nodes) (seen queue : List String)
    (id : String) (degree : InDegree) (inv : Invariant nodes seen (id ∷ queue) degree) where
  abbrev degree' : InDegree
  degree' = (relax id (values nodes) degree).0

  abbrev pushed : List String
  pushed = (relax id (values nodes) degree).1

  popped :
      (contains_key id nodes ≡ true) × (contains seen id ≡ false) × (open_deps nodes seen id ≡ 0)
  unfolding contains
  popped = inv.queued id (ground (arith, string_eq.beq_iff id id))

  -- What waits for nothing does not wait for `id`.
  idle_apart : (k : String) → open_deps nodes seen k ≡ 0 → contains (deps_of nodes k) id ≡ false
  idle_apart k idle = ground (arith, open_in-has nodes id seen (deps_of nodes k), popped)

  idle_after : (k : String) → open_deps nodes seen k ≡ 0 → open_deps nodes (id ∷ seen) k ≡ 0
  idle_after k idle = omega (arith, open_in-le nodes id seen (deps_of nodes k))

  not_pushed : (k : String) → contains (deps_of nodes k) id ≡ false → contains pushed k ≡ false
  not_pushed k miss = relax_pushed id nodes degree k u named ∙ rw miss refl

  from_queue : (k : String) → contains queue k ≡ true → contains (id ∷ queue) k ≡ true
  unfolding contains
  from_queue k h = ground arith

  -- What depends on `id` is neither sorted nor in the queue.
  dependent :
      (k : String)
      → contains (deps_of nodes k) id ≡ true
      → (contains_key k nodes ≡ true)
        × (contains seen k ≡ false)
        × (contains (id ∷ queue) k ≡ false)
  dependent k hit = (
    key_of_dep nodes k id hit,
    elim (Bool-cases (contains seen k)) [
      | inr new ↦ new
      | inl old ↦ absurd (false≢true (sym (idle_apart k (inv.sorted k old)) ∙ hit))
    ],
    elim (Bool-cases (contains (id ∷ queue) k)) [
      | inr new ↦ new
      | inl old ↦ absurd (false≢true (sym (idle_apart k (inv.queued k old).2) ∙ hit))
    ],
  )

  lower_degree : (n : ℕ) → decrement n ≡ 0 → n ≡ 1
  lower_degree zero e = absurd (ground arith)
  lower_degree (suc n) e = ap suc e

  pushed_idle :
      (k : String)
      → contains pushed k ≡ true
      → (contains_key k nodes ≡ true)
        × (contains seen k ≡ false)
        × (contains (id ∷ queue) k ≡ false)
        × (open_deps nodes (id ∷ seen) k ≡ 0)
  pushed_idle k h =
      let both = sym (relax_pushed id nodes degree k u named) ∙ h in
      let hit : contains (deps_of nodes k) id ≡ true = ground arith in
      let one : decrement (degree k) ≡ 0 = ground arith in
      let (key, new, out) = dependent k hit in
      let (_, most) = inv.waiting k key new out in
      (
        key,
        new,
        out,
        omega (
          arith,
          open_in-hit nodes id seen popped.0 popped.1 (deps_of nodes k) hit,
          lower_degree (degree k) one,
        ),
      )

  still_waiting :
      (k : String)
      → contains (id ∷ seen) k ≡ false
      → contains (queue ++ pushed) k ≡ false
      → (contains seen k ≡ false) × (contains (id ∷ queue) k ≡ false) × (contains pushed k ≡ false)
  unfolding contains
  still_waiting k new out = ground (arith, contains-append queue pushed k)

  left_degree :
      (k : String)
      → contains pushed k ≡ false
      → contains (deps_of nodes k) id ≡ true
      → 1 ≤ degree k
      → (1 ≤ degree' k) × (suc (degree' k) ≡ degree k)
  left_degree k out hit some_left =
      let e = relax_degree id nodes degree k u named in
      let f = relax_pushed id nodes degree k u named in
      rw (e, hit) (by_size (degree k) some_left (rw hit at (sym f ∙ out)))
    where
      by_size :
          (n : ℕ)
          → 1 ≤ n
          → nat_beq (decrement n) 0 ≡ false
          → (1 ≤ decrement n) × (suc (decrement n) ≡ n)
      by_size zero h out = absurd (omega arith)
      by_size (suc n) h out = ground arith

  same_degree : (k : String) → contains (deps_of nodes k) id ≡ false → degree' k ≡ degree k
  same_degree k miss = relax_degree id nodes degree k u named ∙ rw miss refl

  in_one :
      (k : String)
      → contains (queue ++ pushed) k ≡ true
      → (contains queue k ≡ true) ⊎ (contains pushed k ≡ true)
  in_one k h = ground (arith, contains-append queue pushed k)

  other_than :
      (k : String) → contains seen k ≡ false → (id == k) ≡ false → contains (id ∷ seen) k ≡ false
  unfolding contains
  other_than k new other = ground arith

  not_id : (k : String) → contains (id ∷ queue) k ≡ false → (id == k) ≡ false
  unfolding contains
  not_id k out = ground arith

  once_id : (k : String) → contains queue k ≡ true → (id == k) ≡ false
  once_id k h = elim (Bool-cases (id == k)) [
    | inr other ↦ other
    | inl same ↦
        absurd (
          false≢true (sym inv.once.0 ∙ (ap (contains queue) ((string_eq.beq_iff id k).0 same) ∙ h)))
  ]

  next_queued :
      (k : String)
      → contains (queue ++ pushed) k ≡ true
      → (contains_key k nodes ≡ true)
        × (contains (id ∷ seen) k ≡ false)
        × (open_deps nodes (id ∷ seen) k ≡ 0)
  next_queued k h = elim (in_one k h) [
    | inl old ↦
        let (key, new, idle) = inv.queued k (from_queue k old) in
        (key, other_than k new (once_id k old), idle_after k idle)
    | inr fresh ↦
        let (key, new, out, idle) = pushed_idle k fresh in
        (key, other_than k new (not_id k out), idle)
  ]

  id_or_seen :
      (k : String) → contains (id ∷ seen) k ≡ true → ((id == k) ≡ true) ⊎ (contains seen k ≡ true)
  unfolding contains
  id_or_seen k h = ground arith

  next_sorted : (k : String) → contains (id ∷ seen) k ≡ true → open_deps nodes (id ∷ seen) k ≡ 0
  next_sorted k h = elim (id_or_seen k h) [
    | inl same ↦
        subst (λ x. open_deps nodes (id ∷ seen) x ≡ 0) ((string_eq.beq_iff id k).0 same)
          (idle_after id popped.2)
    | inr old ↦ idle_after k (inv.sorted k old)
  ]

  next_waiting :
      (k : String)
      → contains_key k nodes ≡ true
      → contains (id ∷ seen) k ≡ false
      → contains (queue ++ pushed) k ≡ false
      → ((1 ≤ degree' k) × (open_deps nodes (id ∷ seen) k ≤ degree' k))
        × (ListsOnce nodes → degree' k ≡ open_deps nodes (id ∷ seen) k)
  next_waiting k key new out =
      let (old, behind, unpushed) = still_waiting k new out in
      let (some_left, most) = inv.waiting k key old behind in
      elim (Bool-cases (contains (deps_of nodes k) id)) [
        | inl hit ↦
            let (left, fewer) = left_degree k unpushed hit some_left in
            (
              (
                left,
                omega (arith, open_in-hit nodes id seen popped.0 popped.1 (deps_of nodes k) hit),
              ),
              λ lists. omega (
                arith,
                inv.exact lists k key old behind,
                open_in-Once nodes id seen popped.0 popped.1 (deps_of nodes k) hit (lists k),
              ),
            )
        | inr miss ↦
            let same = same_degree k miss in
            let deps = open_in-miss nodes id seen (deps_of nodes k) miss in
            ((omega arith, omega arith), λ lists. omega (arith, inv.exact lists k key old behind))
      ]

  pub next : Invariant nodes (id ∷ seen) (queue ++ pushed) degree'
  next = record {
    once =
        Once-append queue pushed inv.once.1 (relax-Once id nodes degree u named)
          (λ k i. not_pushed k (idle_apart k (inv.queued k (from_queue k i)).2));
    queued = next_queued;
    sorted = next_sorted;
    waiting = λ k key new out. (next_waiting k key new out).0;
    exact = λ lists k key new out. (next_waiting k key new out).1 lists;
  }
