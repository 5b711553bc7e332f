-- ===== src/Dag/Checkpoint/Resume.antt =====
-- src/dag/persistence.rs and src/dag/executor.rs: a run goes on from a checkpoint.
use aros_kernel.Prelude.{
  ℕ, suc, String, ◌≡◌, ◌≢◌, ◌⊎◌, inl, inr, refl, sym, ◌∙◌, true, none, some, [], ◌∷◌, arith,
  string_eq, Option-cases, beq_self,
}
use aros_kernel.Prelude.Map.{lookup, values, contains_key, UniqueKeys}
use aros_kernel.Prelude.Result.{ok}
use aros_kernel.Dag.Graph.{Node, Nodes, DagGraph, deps_of, in_progress, is_complete}
use aros_kernel.Dag.Graph.Walks.{IsAcyclic-mono}
use aros_kernel.Dag.Graph.Mutation.{IsValid}
use aros_kernel.Dag.Executor.{Joined, joined_result, run}
use aros_kernel.Dag.Executor.Rounds.{waiting}
use aros_kernel.Dag.Executor.Readiness.{Settled, IsClosed}
use aros_kernel.Dag.Executor.Liveness.{run_completes}
use aros_kernel.Dag.Checkpoint.{Disk, Codec, save_checkpoint, load_checkpoint}
use aros_kernel.Dag.Checkpoint.Restore.{
  reset, reset_option, Keeps, ApartAll, Decodes, load_checkpoint-save_checkpoint,
}

lookup_nothing : (k : String) (nodes : Nodes) → nodes ≡ [] → lookup k nodes ≡ none
unfolding lookup
lookup_nothing k nodes e = rw e refl

no_entries : (nodes : Nodes) → ((k : String) → lookup k nodes ≡ none) → nodes ≡ []
unfolding lookup
no_entries [] gone = refl
no_entries ((k, n) ∷ nodes) gone = absurd (ground (arith, gone k, beq_self k))

-- `h` is `g` as a load returns it.
module _ (g h : DagGraph) (u : UniqueKeys h.nodes)
    (same : (k : String) → lookup k h.nodes ≡ reset_option (lookup k g.nodes)) where
  deps_of-reset : (k : String) → deps_of h.nodes k ≡ deps_of g.nodes k
  deps_of-reset k = elim (Option-cases (lookup k g.nodes)) [
    | inl gone ↦ ground (arith, same k)
    | inr (n, here) ↦ ground (arith, same k)
  ]

  contains_key-reset : (k : String) → contains_key k h.nodes ≡ contains_key k g.nodes
  contains_key-reset k = elim (Option-cases (lookup k g.nodes)) [
    | inl gone ↦ ground (arith, same k)
    | inr (n, here) ↦ ground (arith, same k)
  ]

  origin :
      (k : String) (n : Node)
      → lookup k h.nodes ≡ some n
      → (m : Node) × (lookup k g.nodes ≡ some m) × (n ≡ reset m)
  origin k n here = elim (Option-cases (lookup k g.nodes)) [
    | inl gone ↦ absurd (ground (arith, same k))
    | inr (m, there) ↦ (m, there, ground (arith, same k))
  ]

  restored-IsValid : IsValid g → IsValid h
  restored-IsValid v = record {
    unique = u;
    named = λ k n here. let (m, there, e) = origin k n here in ground (arith, v.named k m there);
    acyclic =
        IsAcyclic-mono
          (λ a b (i, key). (rw (deps_of-reset a) at i, sym (contains_key-reset b) ∙ key)) v.acyclic;
  }

  restored-IsClosed : IsClosed g → IsClosed h
  restored-IsClosed c a b i = contains_key-reset b ∙ c a b (rw (deps_of-reset a) at i)

  restored-Settled :
      ((k : String) (n : Node) → lookup k g.nodes ≡ some n → Settled n ⊎ (n.status ≡ in_progress))
      → (k : String) (n : Node) → lookup k h.nodes ≡ some n
      → Settled n
  restored-Settled s k n here =
      let (m, there, e) = origin k n here in
      elim (s k m there) [
        | inl (inl waits) ↦ inl (ground arith)
        | inl (inr is_done) ↦ inr (ground arith)
        | inr runs ↦ inl (ground arith)
      ]

  restored-inhabited : g.nodes ≢ [] → h.nodes ≢ []
  restored-inhabited some_node empty = some_node (
      no_entries g.nodes λ k.
        ground (arith, same k, lookup_nothing k h.nodes empty, Option-cases (lookup k g.nodes)))

-- A checkpoint of a run, taken at any moment, can be run to its end, where the graph is valid and has
-- at least one node, each node is pending, in progress or done, and every dependency is a node of
-- it: if the save succeeds, the load returns a graph that an executor with room for at least one
-- task, whose tasks succeed, runs to completion. The files keep what is written, no node has the file
-- of the graph, and what is encoded can be decoded.
pub resume_completes :
    {Files : Type 0} (disk : Disk Files) (codec : Codec) (base_path : String)
    (Apart : String → String → Type 0) (keeps : Keeps disk Apart) (room : ℕ)
    (task_fn : Node → Joined) (g : DagGraph) (fs : Files)
    → ((n : Node) → (joined_result (task_fn n)).success ≡ true)
    → IsValid g
    → IsClosed g
    → ((k : String) (n : Node) → lookup k g.nodes ≡ some n → Settled n ⊎ (n.status ≡ in_progress))
    → g.nodes ≢ []
    → ApartAll disk codec base_path Apart keeps (values g.nodes)
    → Decodes codec g
    → (save_checkpoint disk codec base_path g fs).0 ≡ ok tt
    → (h g' : DagGraph) × (load_checkpoint disk codec base_path
          (save_checkpoint disk codec base_path g fs).1
        ≡ ok h)
      × (run (suc room) task_fn (suc (waiting h)) h ≡ some (ok tt, g'))
      × (is_complete g' ≡ true)
resume_completes disk codec base_path Apart keeps room task_fn g fs succeeds v c s inhabited apart
      decodes saved =
    let (h, loaded, u, same) =
      load_checkpoint-save_checkpoint disk codec base_path Apart keeps g fs apart decodes saved in
    let (g', ran, complete) =
      run_completes room task_fn h succeeds (restored-IsValid g h u same v)
        (restored-IsClosed g h u same c) (restored-Settled g h u same s)
        (restored-inhabited g h u same inhabited) in
    (h, g', loaded, ran, complete)
