-- ===== src/Dag/Graph/Walks.antt =====
-- What the search of src/dag/graph.rs looks for: walks along the dependencies of the graph.
use mathlib.Core.WellFounded.{Acc}
use mathlib.Core.Path.{subst}
use aros_kernel.Prelude.{String, string_eq, ◌≡◌, refl, sym, ◌⊎◌, inl, inr, true, In}
use aros_kernel.Prelude.Map.{contains_key}
use aros_kernel.Dag.Graph.{Nodes, deps_of}

-- Node `a` depends on node `b` of the graph.
abbrev pub Edge : Nodes → String → String → Type 0
Edge nodes a b = In b (deps_of nodes a) × (contains_key b nodes ≡ true)

-- A chain of one or more dependencies.
pub data Walk (nodes : Nodes) (a : String) : String → Type 0 where
  edge : {b : String} → Edge nodes a b → Walk nodes a b
  onward : {b c : String} → Walk nodes a b → Edge nodes b c → Walk nodes a c

-- Every chain of dependencies from `v` ends.
abbrev pub Grounded : Nodes → String → Type 0
Grounded nodes = Acc (λ w v. Edge nodes v w)

abbrev pub IsAcyclic : Nodes → Type 0
IsAcyclic nodes = (v : String) → ¬ Walk nodes v v

module _ {nodes : Nodes} where
  pub concat : {a b c : String} → Walk nodes a b → Walk nodes b c → Walk nodes a c
  concat p (edge e) = onward p e
  concat p (onward q e) = onward (concat p q) e

  -- A walk is one dependency and what follows it.
  uncons :
      {a b : String} → Walk nodes a b → (u : String) × Edge nodes a u × ((u ≡ b) ⊎ Walk nodes u b)
  uncons {b} (edge e) = (b, e, inl refl)
  uncons (onward {c = c} p e) =
      let (u, e₁, rest) = uncons p in
      (
        u,
        e₁,
        inr (elim rest [
          | inl same ↦ edge (subst (λ x. Edge nodes x c) (sym same) e)
          | inr q ↦ onward q e
        ]),
      )

  -- The second node of a cycle lies on a cycle.
  rotate : {v : String} → Walk nodes v v → (u : String) × Edge nodes v u × Walk nodes u u
  rotate {v} p =
      let (u, e, rest) = uncons p in
      (
        u,
        e,
        elim rest [
          | inl same ↦ edge (subst (λ x. Edge nodes x u) (sym same) e)
          | inr q ↦ onward q e
        ],
      )

  -- A grounded node lies on no cycle.
  pub Grounded-not-Walk_self : (v : String) → Grounded nodes v → ¬ Walk nodes v v
  Grounded-not-Walk_self v (Acc.intro _ h) p =
      let (u, e, q) = rotate p in Grounded-not-Walk_self u (h u e) q

-- A graph with fewer dependencies has fewer walks.
module _ {nodes nodes' : Nodes} (sub : (a b : String) → Edge nodes' a b → Edge nodes a b) where
  pub Walk-mono : {a b : String} → Walk nodes' a b → Walk nodes a b
  Walk-mono {a} (edge {b} e) = edge (sub a b e)
  Walk-mono (onward {b} {c} p e) = onward (Walk-mono p) (sub b c e)

  pub IsAcyclic-mono : IsAcyclic nodes → IsAcyclic nodes'
  IsAcyclic-mono h v p = h v (Walk-mono p)
