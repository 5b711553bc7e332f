-- ===== src/Dag/Graph/Bookkeeping.antt =====
-- What the search for a cycle of src/dag/graph.rs keeps true of its two sets of marks.
use aros_kernel.Prelude.{
  ℕ, ◌≤◌, ◌<◌, String, ◌≡◌, refl, ◌⊎◌, inl, inr, Bool, true, false, not, ◌||◌, Option, none, some,
  List, [], ◌∷◌, arith, ◌==◌, string_eq, contains, count_if, In,
}
use aros_kernel.Prelude.Map.{contains_key, keys}
use aros_kernel.Dag.Graph.{Nodes, Marks}
use aros_kernel.Dag.Graph.Walks.{Walk, Grounded}

module _ (nodes : Nodes) where
  -- The nodes that the search has not entered yet.
  abbrev pub unvisited : Marks → ℕ
  unvisited m = count_if (λ k. not (contains m.visited k)) (keys nodes)

  -- The marks while no search runs below the nodes of `m.stack`: what is on the stack was visited,
  -- and every other visited node is known to lie below no cycle.
  pub record Consistent (m : Marks) : Type 0 where
    pub stacked : (s : String) → contains m.stack s ≡ true → contains m.visited s ≡ true
    pub finished :
        (u : String) → contains m.visited u ≡ true → contains m.stack u ≡ false → Grounded nodes u

  -- What a search that finds nothing leaves behind.
  pub record Clean (m m' : Marks) : Type 0 where
    pub same_stack : m'.stack ≡ m.stack
    pub grows : (u : String) → contains m.visited u ≡ true → contains m'.visited u ≡ true
    pub fewer : unvisited m' ≤ unvisited m
    pub consistent : Consistent m'

  abbrev pub Cycle : Type 0
  Cycle = (c : String) × Walk nodes c c

  -- The contract of a search: it does not run out of fuel, it finds only cycles, and otherwise
  -- `Q` holds of what it covered.
  abbrev pub Ends : Marks → Type 0 → Option (Bool × Marks) → Type 0
  Ends m Q none = ⊥
  Ends m Q (some (true, m')) = Cycle
  Ends m Q (some (false, m')) = Clean m m' × Q

  -- Every node on the stack leads to `v`.
  abbrev pub LeadsTo : Marks → String → Type 0
  LeadsTo m v = (s : String) → contains m.stack s ≡ true → Walk nodes s v

  abbrev pub Search : (String → Marks → Option (Bool × Marks)) → ℕ → Type 0
  Search rec fuel =
      (v : String) (m : Marks)
      → unvisited m ≤ fuel
      → contains_key v nodes ≡ true
      → contains m.visited v ≡ false
      → Consistent m
      → LeadsTo m v
      → Ends m (Grounded nodes v) (rec v m)

  pub Clean-refl : (m : Marks) → Consistent m → Clean m m
  Clean-refl m c = record {
    same_stack = refl;
    grows = λ u h. h;
    fewer = omega arith;
    consistent = c;
  }

  pub Clean-trans : (a b c : Marks) → Clean a b → Clean b c → Clean a c
  Clean-trans a b c p q = record {
    same_stack = cc;
    grows = λ u h. q.grows u (p.grows u h);
    fewer = omega arith;
    consistent = q.consistent;
  }

  pub Ends-cases :
      {m : Marks} {Q : Type 0} (r : Option (Bool × Marks))
      → Ends m Q r
      → ((m' : Marks) × (r ≡ some (true, m')) × Cycle)
        ⊎ ((m' : Marks) × (r ≡ some (false, m')) × Clean m m' × Q)
  Ends-cases none h = absurd h
  Ends-cases (some (true, m')) h = inl (m', refl, h)
  Ends-cases (some (false, m')) h = inr (m', refl, h.0, h.1)

  -- A search that follows another one, for a weaker conclusion.
  pub Ends-after :
      {m n : Marks} {Q R : Type 0} (r : Option (Bool × Marks))
      → Clean m n
      → (Q → R)
      → Ends n Q r
      → Ends m R r
  Ends-after none p f h = absurd h
  Ends-after (some (true, m')) p f h = h
  Ends-after (some (false, m')) p f h = (Clean-trans _ _ _ p h.0, f h.1)

  pub unvisited-le :
      (m m' : Marks) (v : String) (ks : List String)
      → ((u : String) → contains m'.visited u ≡ (v == u || contains m.visited u))
      → count_if (λ k. not (contains m'.visited k)) ks
        ≤ count_if (λ k. not (contains m.visited k)) ks
  unvisited-le m m' v [] added = omega arith
  unvisited-le m m' v (k ∷ ks) added = ground (arith, added k, unvisited-le m m' v ks added)

  -- To enter a node leaves fewer to visit.
  pub unvisited-lt :
      (m m' : Marks) (v : String) (ks : List String)
      → contains m.visited v ≡ false
      → ((u : String) → contains m'.visited u ≡ (v == u || contains m.visited u))
      → In v ks
      → count_if (λ k. not (contains m'.visited k)) ks
        < count_if (λ k. not (contains m.visited k)) ks
  unvisited-lt m m' v [] new added i = absurd i
  unvisited-lt m m' v (k ∷ ks) new added i = ground (
    arith,
    added k,
    string_eq.beq_iff v k,
    unvisited-lt m m' v ks new added,
    unvisited-le m m' v ks added,
  )
