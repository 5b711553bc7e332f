-- ===== src/Dag/Graph/Search.antt =====
-- The search for a cycle of src/dag/graph.rs: it always ends, and it finds a cycle if and only if
-- there is one.
use mathlib.Core.WellFounded.{Acc}
use mathlib.Core.Path.{subst, ◌∙◌}
use mathlib.Core.Bool.{false≢true}
use aros_kernel.Prelude.{
  ℕ, zero, suc, ◌≤◌, ◌<◌, String, ◌≡◌, refl, sym, ◌⊎◌, inl, inr, Bool, true, false, not, Option,
  none, some, List, [], ◌∷◌, arith, ◌==◌, string_eq, eq_of_beq, length, contains, remove_item,
  count_if-le, In, Bool-cases, contains-insert_item, remove_item-insert_item,
}
use aros_kernel.Prelude.Map.{contains_key, keys, contains_key_of_In, In-keys_of_key, length-keys}
use aros_kernel.Dag.Graph.{
  Nodes, deps_of, Marks, visit_dep, scan_deps, enter, leave, dfs_cycle, search_keys, search,
}
use aros_kernel.Dag.Graph.Walks.{Edge, Walk, edge, onward, Grounded}
use aros_kernel.Dag.Graph.Bookkeeping.{
  unvisited, Consistent, Clean, Cycle, Ends, LeadsTo, Search, Clean-refl, Ends-cases, Ends-after,
  unvisited-lt,
}

module _ (nodes : Nodes) where
  module _ (rec : String → Marks → Option (Bool × Marks)) (fuel : ℕ) (works : Search nodes rec fuel)
      (v : String) where
    -- Every node on the stack is `v` or leads to it.
    abbrev Below : Marks → Type 0
    Below m = (s : String) → contains m.stack s ≡ true → (s ≡ v) ⊎ Walk nodes s v

    to_dep : (s dep : String) → (s ≡ v) ⊎ Walk nodes s v → Edge nodes v dep → Walk nodes s dep
    to_dep s dep (inl same) e = edge (subst (λ x. Edge nodes x dep) (sym same) e)
    to_dep s dep (inr w) e = onward w e

    visit_dep-Ends :
        (dep : String) (m : Marks)
        → Consistent nodes m
        → Below m
        → unvisited nodes m ≤ fuel
        → In dep (deps_of nodes v)
        → Ends nodes m
            (contains_key dep nodes ≡ true → Grounded nodes dep)
            (visit_dep rec nodes dep m)
    unfolding visit_dep
    visit_dep-Ends dep m c below h d = elim (Bool-cases (contains_key dep nodes)) [
      | inr other ↦ rw (other, visit_dep, Ends) (Clean-refl nodes m c, λ e. cc)
      | inl key ↦ elim (Bool-cases (contains m.visited dep)) [
        | inr new ↦
            rw (key, new, visit_dep)
              (Ends-after nodes (rec dep m) (Clean-refl nodes m c) (λ g _. g)
                (works dep m h key new c (λ s on. to_dep s dep (below s on) (d, key))))
        | inl old ↦ elim (Bool-cases (contains m.stack dep)) [
          | inl on ↦
              rw (key, old, on, visit_dep, Ends) (dep, to_dep dep dep (below dep on) (d, key))
          | inr off ↦
              rw (key, old, off, visit_dep, Ends)
                (Clean-refl nodes m c, λ _. c.finished dep old off)
        ]
      ]
    ]

    scan_deps-Ends :
        (deps : List String) (m : Marks)
        → Consistent nodes m
        → Below m
        → unvisited nodes m ≤ fuel
        → ((d : String) → In d deps → In d (deps_of nodes v))
        → Ends nodes m
            ((d : String) → In d deps → contains_key d nodes ≡ true → Grounded nodes d)
            (scan_deps rec nodes deps m)
    unfolding scan_deps
    scan_deps-Ends [] m c below h sub = (Clean-refl nodes m c, λ d i. absurd i)
    scan_deps-Ends (dep ∷ deps) m c below h sub =
        elim (Ends-cases nodes (visit_dep rec nodes dep m)
          (visit_dep-Ends dep m c below h (sub dep (inl refl)))) [
            | inl (m', e, cycle) ↦ rw (e, scan_deps, Ends) cycle
            | inr (m', e, clean, g) ↦
                rw (e, scan_deps, Ends)
                  (Ends-after nodes (scan_deps rec nodes deps m') clean
                    (λ rest d. elim [
                      | inl same ↦
                          subst (λ x. contains_key x nodes ≡ true → Grounded nodes x) (sym same) g
                      | inr i ↦ rest d i
                    ])
                    (scan_deps-Ends deps m' clean.consistent
                      (λ s on. below s (rw clean.same_stack at on)) (omega (arith, clean.fewer))
                      (λ d i. sub d (inr i))))
          ]

  module _ (v : String) (m : Marks) (key : contains_key v nodes ≡ true)
      (new : contains m.visited v ≡ false) (c : Consistent nodes m) where
    off_stack : contains m.stack v ≡ false
    off_stack = ground (arith, c.stacked v)

    Consistent-enter : Consistent nodes (enter v m)
    unfolding enter
    Consistent-enter = record {
      stacked = λ s on. ground (
        arith,
        contains-insert_item v s m.stack,
        contains-insert_item v s m.visited,
        c.stacked s,
      );
      finished = λ u seen off. ground (
        arith,
        contains-insert_item v u m.stack,
        contains-insert_item v u m.visited,
        c.finished u,
      );
    }

    unvisited-enter : unvisited nodes (enter v m) < unvisited nodes m
    unfolding enter
    unvisited-enter =
        unvisited-lt nodes m (enter v m) v (keys nodes) new
          (λ u. contains-insert_item v u m.visited) (In-keys_of_key v nodes key)

    Clean-leave :
        (m' : Marks) → Clean nodes (enter v m) m' → Grounded nodes v → Clean nodes m (leave v m')
    unfolding enter leave
    Clean-leave m' p g =
        let same : remove_item v m'.stack ≡ m.stack =
          rw p.same_stack (remove_item-insert_item v m.stack off_stack) in
        record {
          same_stack = same;
          grows = λ u h. p.grows u (ground (arith, contains-insert_item v u m.visited));
          fewer = omega (arith, p.fewer, unvisited-enter);
          consistent = record {
            stacked = λ s on.
                p.consistent.stacked s
                  (ground (arith, contains-insert_item v s m.stack, rw same at on, p.same_stack));
            finished = λ u seen off. elim (Bool-cases (v == u)) [
              | inl same_node ↦ subst (Grounded nodes) (eq_of_beq v u same_node) g
              | inr other ↦
                  p.consistent.finished u seen
                    (ground (arith, contains-insert_item v u m.stack, rw same at off, p.same_stack))
            ];
          };
        }

  Below-enter :
      (v : String) (m : Marks)
      → LeadsTo nodes m v
      → (s : String) → contains (enter v m).stack s ≡ true
      → (s ≡ v) ⊎ Walk nodes s v
  unfolding enter
  Below-enter v m lead s on =
      ground (arith, contains-insert_item v s m.stack, string_eq.beq_iff v s, lead s)

  dfs_cycle_ends : (fuel : ℕ) → Search nodes (dfs_cycle nodes fuel) fuel
  unfolding dfs_cycle
  dfs_cycle_ends zero v m h key new c lead = absurd (omega (arith, unvisited-enter v m key new c))
  dfs_cycle_ends (suc fuel) v m h key new c lead =
      elim (Ends-cases nodes (scan_deps (dfs_cycle nodes fuel) nodes (deps_of nodes v) (enter v m))
        (scan_deps-Ends (dfs_cycle nodes fuel) fuel (dfs_cycle_ends fuel) v (deps_of nodes v)
          (enter v m) (Consistent-enter v m key new c) (Below-enter v m lead)
          (omega (arith, unvisited-enter v m key new c)) (λ d i. i))) [
            | inl (m', e, cycle) ↦ rw (e, dfs_cycle, Ends) cycle
            | inr (m', e, clean, all_grounded) ↦
                let g = Acc.intro v (λ w edge. all_grounded w edge.0 edge.1) in
                rw (e, dfs_cycle, Ends) (Clean-leave v m key new c m' clean g, g)
          ]

  -- The outcome of the loop over `ids`.
  abbrev pub Verdict : List String → Option Bool → Type 0
  Verdict ids none = ⊥
  Verdict ids (some true) = Cycle nodes
  Verdict ids (some false) = (v : String) → In v ids → Grounded nodes v

  Verdict-cons :
      (v : String) (ids : List String) (r : Option Bool)
      → Grounded nodes v
      → Verdict ids r
      → Verdict (v ∷ ids) r
  Verdict-cons v ids none g h = h
  Verdict-cons v ids (some true) g h = h
  Verdict-cons v ids (some false) g h =
      λ u. elim [ inl same ↦ subst (Grounded nodes) (sym same) g | inr i ↦ h u i ]

  off_empty : (m : Marks) (s : String) → m.stack ≡ [] → contains m.stack s ≡ false
  unfolding contains
  off_empty m s empty = rw empty refl

  search_keys_ends :
      (fuel : ℕ) (ids : List String) (m : Marks)
      → Consistent nodes m
      → m.stack ≡ []
      → unvisited nodes m ≤ fuel
      → ((v : String) → In v ids → contains_key v nodes ≡ true)
      → Verdict ids (search_keys nodes fuel ids m)
  unfolding search_keys
  search_keys_ends fuel [] m c empty h known = λ v i. absurd i
  search_keys_ends fuel (v ∷ ids) m c empty h known = elim (Bool-cases (contains m.visited v)) [
    | inl old ↦
        rw (old, search_keys)
          (Verdict-cons v ids (search_keys nodes fuel ids m)
            (c.finished v old (off_empty m v empty))
            (search_keys_ends fuel ids m c empty h (λ u i. known u (inr i))))
    | inr new ↦
        elim (Ends-cases nodes (dfs_cycle nodes fuel v m) (
          dfs_cycle_ends fuel v m h (known v (inl refl)) new c
            (λ s on. absurd (false≢true (sym (off_empty m s empty) ∙ on))))) [
              | inl (m', e, cycle) ↦ rw (new, e, search_keys, Verdict) cycle
              | inr (m', e, clean, g) ↦
                  rw (new, e, search_keys)
                    (Verdict-cons v ids (search_keys nodes fuel ids m') g (
                      search_keys_ends fuel ids m' clean.consistent (clean.same_stack ∙ empty)
                        (omega (arith, clean.fewer)) (λ u i. known u (inr i))))
            ]
  ]

  pub search_ends : Verdict (keys nodes) (search nodes)
  unfolding search
  search_ends =
      search_keys_ends (length nodes) (keys nodes) (record { visited = []; stack = [] })
        (record { stacked = λ s on. cc; finished = λ u seen. cc }) refl
        (rw (← length-keys nodes) (count_if-le (λ k. not (contains [] k)) (keys nodes)))
        (λ v i. contains_key_of_In v nodes i)
