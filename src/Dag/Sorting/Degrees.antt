-- ===== src/Dag/Sorting/Degrees.antt =====
-- src/dag/graph.rs: what a round of `topological_sort` does to the degrees, and what it pushes.
use mathlib.Core.Path.{subst}
use aros_kernel.Prelude.{
  String, ◌≡◌, refl, Bool, true, false, ◌&&◌, List, [], ◌∷◌, arith, inl, inr, sym, ap, ◌∙◌,
  Bool-cases, if◌then◌else◌, string_eq, nat_beq, ◌==◌, contains,
}
use aros_kernel.Prelude.Map.{lookup, values, UniqueKeys}
use aros_kernel.Dag.Graph.{Node, Nodes, deps_of}
use aros_kernel.Dag.Sorting.{InDegree, decrement, relax}
use aros_kernel.Dag.Sorting.Counting.{
  Named, Once, Named-head, Named-tail, deps_of-head, deps_of-tail, deps_of-gone,
}

-- The degrees after one node that waits for `id`.
abbrev lowered : Node → InDegree → InDegree
lowered n degree = λ k. if n.id == k then decrement (degree n.id) else degree k

lowered-same :
    (n : Node) (degree : InDegree) (k : String)
    → n.id ≡ k
    → lowered n degree k ≡ decrement (degree k)
lowered-same n degree k e = rw ((string_eq.beq_iff n.id k).1 e) (ap (λ x. decrement (degree x)) e)

lowered-other :
    (n : Node) (degree : InDegree) (k : String)
    → (n.id == k) ≡ false
    → lowered n degree k ≡ degree k
lowered-other n degree k e = rw e refl

module _ (id : String) (n : Node) (ns : List Node) (degree : InDegree) where
  relax-hit :
      contains n.depends_on id ≡ true
      → relax id (n ∷ ns) degree ≡ (
        (relax id ns (lowered n degree)).0,
        if nat_beq (decrement (degree n.id)) 0
            then n.id ∷ (relax id ns (lowered n degree)).1
            else (relax id ns (lowered n degree)).1,
      )
  unfolding relax
  relax-hit hit = rw (hit, relax) refl

  relax-miss : contains n.depends_on id ≡ false → relax id (n ∷ ns) degree ≡ relax id ns degree
  unfolding relax
  relax-miss miss = rw (miss, relax) refl

contains-nil : (ds : List String) (id : String) → ds ≡ [] → contains ds id ≡ false
unfolding contains
contains-nil ds id e = rw e refl

-- After `id` is sorted, the nodes that depend on it have one dependency less to wait for.
pub relax_degree :
    (id : String) (m : Nodes) (degree : InDegree) (k : String)
    → UniqueKeys m
    → Named m
    → (relax id (values m) degree).0 k
      ≡ (if contains (deps_of m k) id then decrement (degree k) else degree k)
relax_degree id [] degree k u named = unfold relax lookup contains in refl
relax_degree id ((j, w) ∷ m) degree k u named = elim (Bool-cases (contains w.depends_on id)) [
  | inl hit ↦
      ap (λ r. r.0 k) (relax-hit id w (values m) degree hit)
      ∙ (relax_degree id m (lowered w degree) k u.1 tail ∙ elim (Bool-cases (j == k)) [
        | inl same ↦
            rw
              (
                deps_of-head j k w m same,
                deps_of-gone j k w m same u.0,
                hit,
                contains-nil [] id refl,
              )
              (lowered-same w degree k (head ∙ (string_eq.beq_iff j k).0 same))
        | inr other ↦ rw (deps_of-tail j k w m other) (
            ap (λ d. if contains (deps_of m k) id then decrement d else d)
              (lowered-other w degree k (ap (λ x. x == k) head ∙ other)))
      ])
  | inr miss ↦
      ap (λ r. r.0 k) (relax-miss id w (values m) degree miss)
      ∙ (relax_degree id m degree k u.1 tail ∙ elim (Bool-cases (j == k)) [
        | inl same ↦
            rw
              (
                deps_of-head j k w m same,
                deps_of-gone j k w m same u.0,
                miss,
                contains-nil [] id refl,
              )
              refl
        | inr other ↦ rw (deps_of-tail j k w m other) refl
      ])
]
  where
    head : w.id ≡ j
    head = Named-head j w m named

    tail : Named m
    tail = Named-tail j w m u.0 named

pub pushed_first :
    (b c : Bool) (x k : String) (rest : List String)
    → b ≡ c
    → (x == k) ≡ true
    → contains rest k ≡ false
    → contains (if b then x ∷ rest else rest) k ≡ c
unfolding contains
pushed_first b c x k rest e same none_left = ground arith

pub pushed_other :
    (b : Bool) (x k : String) (rest : List String)
    → (x == k) ≡ false
    → contains (if b then x ∷ rest else rest) k ≡ contains rest k
unfolding contains
pushed_other b x k rest other = ground arith

-- The nodes that are pushed are those that depend on `id` and wait for nothing else.
pub relax_pushed :
    (id : String) (m : Nodes) (degree : InDegree) (k : String)
    → UniqueKeys m
    → Named m
    → contains (relax id (values m) degree).1 k
      ≡ (contains (deps_of m k) id && nat_beq (decrement (degree k)) 0)
relax_pushed id [] degree k u named = unfold relax lookup contains in refl
relax_pushed id ((j, w) ∷ m) degree k u named = elim (Bool-cases (contains w.depends_on id)) [
  | inl hit ↦
      ap (λ r. contains r.1 k) (relax-hit id w (values m) degree hit) ∙ elim (Bool-cases (j == k)) [
        | inl same ↦
            rw (deps_of-head j k w m same, hit)
              (pushed_first (nat_beq (decrement (degree w.id)) 0) _ w.id k rest
                (ap (λ x. nat_beq (decrement (degree x)) 0) (here same))
                ((string_eq.beq_iff w.id k).1 (here same))
                (relax_pushed id m (lowered w degree) k u.1 tail
                  ∙ rw (deps_of-gone j k w m same u.0, contains-nil [] id refl) refl))
        | inr other ↦ rw (deps_of-tail j k w m other) (
            pushed_other (nat_beq (decrement (degree w.id)) 0) w.id k rest
              (ap (λ x. x == k) head ∙ other)
            ∙ (relax_pushed id m (lowered w degree) k u.1 tail
                ∙ ap (λ d. contains (deps_of m k) id && nat_beq (decrement d) 0)
                    (lowered-other w degree k (ap (λ x. x == k) head ∙ other))))
      ]
  | inr miss ↦
      ap (λ r. contains r.1 k) (relax-miss id w (values m) degree miss)
      ∙ (relax_pushed id m degree k u.1 tail ∙ elim (Bool-cases (j == k)) [
        | inl same ↦
            rw
              (
                deps_of-head j k w m same,
                deps_of-gone j k w m same u.0,
                miss,
                contains-nil [] id refl,
              )
              refl
        | inr other ↦ rw (deps_of-tail j k w m other) refl
      ])
]
  where
    head : w.id ≡ j
    head = Named-head j w m named

    tail : Named m
    tail = Named-tail j w m u.0 named

    here : (j == k) ≡ true → w.id ≡ k
    here same = head ∙ (string_eq.beq_iff j k).0 same

    rest : List String
    rest = (relax id (values m) (lowered w degree)).1

pub Once-if :
    (b : Bool) (x : String) (xs : List String)
    → contains xs x ≡ false
    → Once xs
    → Once (if b then x ∷ xs else xs)
Once-if true x xs absent once = (absent, once)
Once-if false x xs absent once = once

pub relax-Once :
    (id : String) (m : Nodes) (degree : InDegree)
    → UniqueKeys m
    → Named m
    → Once (relax id (values m) degree).1
relax-Once id [] degree u named = unfold relax in tt
relax-Once id ((j, w) ∷ m) degree u named = elim (Bool-cases (contains w.depends_on id)) [
  | inl hit ↦ subst Once (sym (ap (λ r. r.1) (relax-hit id w (values m) degree hit))) (
      Once-if (nat_beq (decrement (degree w.id)) 0) w.id _ absent
        (relax-Once id m (lowered w degree) u.1 tail))
  | inr miss ↦
      subst Once (sym (ap (λ r. r.1) (relax-miss id w (values m) degree miss)))
        (relax-Once id m degree u.1 tail)
]
  where
    tail : Named m
    tail = Named-tail j w m u.0 named

    head : w.id ≡ j
    head = Named-head j w m named

    absent : contains (relax id (values m) (lowered w degree)).1 w.id ≡ false
    absent =
        relax_pushed id m (lowered w degree) w.id u.1 tail
        ∙ rw
            (
              deps_of-gone j w.id w m ((string_eq.beq_iff j w.id).1 (sym head)) u.0,
              contains-nil [] id refl,
            )
            refl
