-- ===== src/Dag/Sorting/Order.antt =====
-- src/dag/graph.rs: what `topological_sort` returns.
use mathlib.Core.Path.{subst}
use aros_kernel.Prelude.{
  ℕ, zero, suc, ◌+◌, ◌≤◌, ◌<◌, String, ◌≡◌, refl, sym, ap, ◌∙◌, Bool, true, false, not, ◌&&◌, ◌||◌,
  none, some, List, [], ◌∷◌, ◌++◌, arith, inl, inr, if◌then◌else◌, string_eq, nat_beq, ◌==◌,
  contains, count_if, In, filter, length, Bool-cases,
}
use aros_kernel.Prelude.Map.{lookup, contains_key, keys, values, UniqueKeys}
use aros_kernel.Dag.Graph.{Nodes, deps_of}
use aros_kernel.Dag.Sorting.{InDegree, count_all, relax, sort_from}
use aros_kernel.Dag.Sorting.Counting.{Named, Once, inside, count_all_lem}
use aros_kernel.Dag.Sorting.Degrees.{Once-if}
use aros_kernel.Dag.Sorting.Waiting.{open_in, open_deps, ListsOnce}
use aros_kernel.Dag.Sorting.Rounds.{Invariant, next}

-- Every dependency that is in the graph comes earlier. `seen` is what comes before the list.
abbrev pub Ordered : Nodes → List String → List String → Type 0
Ordered nodes seen [] = Unit
Ordered nodes seen (id ∷ ids) =
    ((d : String) → In d (deps_of nodes id) → contains_key d nodes ≡ true → contains seen d ≡ true)
    × Ordered nodes (id ∷ seen) ids

abbrev pub unseen : Nodes → List String → ℕ
unseen nodes seen = count_if (λ k. not (contains seen k)) (keys nodes)

-- What the loop returns from a state with `seen` sorted.
abbrev pub Outcome : Nodes → List String → List String → Type 0
Outcome nodes seen [] =
    ListsOnce nodes
    → (k : String) → contains_key k nodes ≡ true
    → contains seen k ≡ false
    → 1 ≤ open_deps nodes seen k
Outcome nodes seen (id ∷ ids) =
    (contains_key id nodes ≡ true)
    × (contains seen id ≡ false)
    × (open_deps nodes seen id ≡ 0)
    × Outcome nodes (id ∷ seen) ids

unseen-same :
    (m : Nodes) (id : String) (seen : List String)
    → lookup id m ≡ none
    → unseen m (id ∷ seen) ≡ unseen m seen
unfolding lookup contains
unseen-same [] id seen gone = refl
unseen-same ((j, w) ∷ m) id seen gone =
    ground (arith, unseen-same m id seen, string_eq.beq_iff j id, string_eq.beq_iff id j)

pub unseen-less :
    (m : Nodes) (id : String) (seen : List String)
    → UniqueKeys m
    → contains_key id m ≡ true
    → contains seen id ≡ false
    → suc (unseen m (id ∷ seen)) ≡ unseen m seen
unfolding lookup contains
unseen-less [] id seen u here new = absurd (ground arith)
unseen-less ((j, w) ∷ m) id seen u here new = elim (Bool-cases (j == id)) [
  | inl same ↦ ground (arith, unseen-same m id seen, string_eq.beq_iff j id, string_eq.beq_iff id j)
  | inr other ↦
      ground (arith, unseen-less m id seen u.1, string_eq.beq_iff j id, string_eq.beq_iff id j)
]

pub contains-keys : (m : Nodes) (k : String) → contains (keys m) k ≡ contains_key k m
unfolding contains lookup
contains-keys [] k = refl
contains-keys ((j, w) ∷ m) k = ground (arith, contains-keys m k)

contains-if :
    (b : Bool) (x k : String) (rest : List String)
    → contains (if b then x ∷ rest else rest) k ≡ ((b && (x == k)) || contains rest k)
unfolding contains
contains-if b x k rest = ground arith

contains-filter :
    (p : String → Bool) (m : Nodes) (k : String)
    → contains (filter p (keys m)) k ≡ (contains_key k m && p k)
unfolding contains lookup
contains-filter p [] k = refl
contains-filter p ((j, w) ∷ m) k = elim (Bool-cases (j == k)) [
  | inl same ↦
      contains-if (p j) j k (filter p (keys m))
      ∙ subst
          (λ x.
            ((p x && (j == k)) || contains (filter p (keys m)) k)
            ≡ (contains_key k ((j, w) ∷ m) && p k))
          (sym ((string_eq.beq_iff j k).0 same)) (ground (arith, contains-filter p m k))
  | inr other ↦ contains-if (p j) j k (filter p (keys m)) ∙ ground (arith, contains-filter p m k)
]

gone_key : (m : Nodes) (j : String) → lookup j m ≡ none → contains_key j m ≡ false
gone_key m j gone = rw gone refl

Once-filter : (p : String → Bool) (m : Nodes) → UniqueKeys m → Once (filter p (keys m))
Once-filter p [] u = tt
Once-filter p ((j, w) ∷ m) u =
    Once-if (p j) j (filter p (keys m)) (contains-filter p m j ∙ rw (gone_key m j u.0) refl)
      (Once-filter p m u.1)

pub all_unseen : (m : Nodes) → unseen m [] ≡ length m
unfolding contains
all_unseen [] = refl
all_unseen ((j, w) ∷ m) = ap suc (all_unseen m)

pub contains-none : (d : String) → contains [] d ≡ false
unfolding contains
contains-none d = refl

module _ (nodes : Nodes) (u : UniqueKeys nodes) (named : Named nodes) where
  loop_ends :
      (fuel : ℕ) (seen queue : List String) (degree : InDegree)
      → Invariant nodes seen queue degree
      → unseen nodes seen < fuel
      → (sorted : List String) × (sort_from (values nodes) fuel queue degree ≡ some sorted)
        × Outcome nodes seen sorted
  unfolding sort_from contains
  loop_ends zero seen queue degree inv less = absurd (omega arith)
  loop_ends (suc fuel) seen [] degree inv less = (
    [],
    refl,
    λ lists k key new.
        let (a, _) = inv.waiting k key new refl in omega (arith, inv.exact lists k key new refl),
  )
  loop_ends (suc fuel) seen (id ∷ queue) degree inv less =
      let (key, new, idle) = inv.queued id (ground (arith, string_eq.beq_iff id id)) in
      let r = relax id (values nodes) degree in
      let (sorted, e, o) =
        loop_ends fuel (id ∷ seen) (queue ++ r.1) r.0 (next nodes u named seen queue id degree inv)
          (omega (arith, unseen-less nodes id seen u key new)) in
      (id ∷ sorted, rw (e, sort_from) refl, (key, new, idle, o))

  -- The queue before the first round.
  abbrev pub degrees : InDegree
  degrees = count_all nodes (values nodes) (λ k. 0)

  abbrev pub sources : List String
  sources = filter (λ id. nat_beq (degrees id) 0) (keys nodes)

  degrees_lem : (k : String) → degrees k ≡ open_deps nodes [] k
  degrees_lem k = count_all_lem nodes nodes (λ k. 0) k u named ∙ all_open (deps_of nodes k)
    where
      all_open : (ds : List String) → 0 + inside nodes ds ≡ open_in nodes [] ds
      all_open [] = refl
      all_open (d ∷ ds) = ground (arith, all_open ds, contains-none d)

  contains-sources :
      (k : String) → contains sources k ≡ (contains_key k nodes && nat_beq (degrees k) 0)
  contains-sources k = contains-filter (λ id. nat_beq (degrees id) 0) nodes k

  first_round : Invariant nodes [] sources degrees
  unfolding contains
  first_round = record {
    once = Once-filter (λ id. nat_beq (degrees id) 0) nodes u;
    queued = λ k h. ground (arith, contains-sources k, degrees_lem k);
    sorted = λ k h. absurd (ground arith);
    waiting = λ k key new out. ground (arith, contains-sources k, degrees_lem k);
    exact = λ lists k key new out. degrees_lem k;
  }

  unseen-none : unseen nodes [] ≡ length nodes
  unseen-none = all_unseen nodes

  -- The loop ends with one unit of fuel more than there are nodes.
  pub sort_ends :
      (sorted : List String) × (sort_from (values nodes) (suc (length nodes)) sources degrees
        ≡ some sorted)
      × Outcome nodes [] sorted
  sort_ends =
      loop_ends (suc (length nodes)) [] sources degrees first_round (omega (arith, unseen-none))
