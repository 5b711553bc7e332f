-- ===== src/Dag/Checkpoint/Examples.antt =====
-- A checkpoint of two nodes in a list of files, and the theorems about src/dag/persistence.rs at it.
use Prim.Native.String
use mathlib.Core.Bool.{false≢true}
use aros_kernel.Prelude.{
  suc, String, ◌≡◌, ◌≢◌, ◌⊎◌, refl, inl, inr, true, none, some, List, [], ◌∷◌, arith, In, string_eq,
  beq_self,
}
use aros_kernel.Prelude.Map.{
  lookup, insert, modify, values, UniqueKeys, contains_key, lookup-insert,
}
use aros_kernel.Prelude.Result.{Result, ok, err}
use aros_kernel.Dag.Graph.{Node, DagGraph, deps_of, in_progress, is_complete}
use aros_kernel.Dag.Graph.Mutation.{IsValid}
use aros_kernel.Dag.Graph.Status.{modify-IsValid}
use aros_kernel.Dag.Executor.{run, set_status}
use aros_kernel.Dag.Executor.Rounds.{waiting}
use aros_kernel.Dag.Executor.Readiness.{Settled, IsClosed}
use aros_kernel.Dag.Examples.{task, chain, chain-IsValid, succeed, succeeds}
use aros_kernel.Dag.Checkpoint.{
  Disk, Codec, save_checkpoint, load_checkpoint, save_nodes, save_node_state,
}
use aros_kernel.Dag.Checkpoint.Restore.{
  reset_option, Keeps, ApartAll, Decodes, load_checkpoint-save_checkpoint,
}
use aros_kernel.Dag.Checkpoint.Resume.{resume_completes}

abbrev Files : Type 0
Files = List (String × String)

read : String → Files → Result String String
read path fs = elim (lookup path fs) [ none ↦ err "No such file" | some text ↦ ok text ]

disk : Disk Files
disk = record {
  join = λ dir name. String.◌++◌ (String.◌++◌ dir "/") name;
  exists = contains_key;
  create_dir_all = λ path fs. (ok tt, fs);
  write = λ path text fs. (ok tt, insert path text fs);
  read_to_string = read;
  remove_dir_all = λ path fs. (ok tt, []);
}

abbrev Apart : String → String → Type 0
Apart p q = p ≢ q

keeps : Keeps disk Apart
unfolding disk read
keeps = record {
  read_written = λ path text fs e. ground (arith, lookup-insert path path text fs, beq_self path);
  read_other = λ path text other fs apart.
      ground (arith, lookup-insert path other text fs, string_eq.beq_iff path other);
  read_made = λ path other fs. refl;
  exists_read = λ path text fs e. ground arith;
}

-- `build` is running, `ship` waits for it.
abbrev half : DagGraph
half = record {
  nodes =
      ("build", set_status in_progress (task "build" []))
      ∷ ("ship", task "ship" ("build" ∷ []))
      ∷ [];
}

codec : Codec
codec = record {
  encode_graph = λ g. ok "graph";
  encode_node = λ n. ok n.id;
  decode_graph = λ text. ok half;
}

half-IsValid : IsValid half
unfolding modify
half-IsValid =
    modify-IsValid "build" (set_status in_progress) (λ n. refl) (λ n. refl) chain chain-IsValid

decodes : Decodes codec half
unfolding codec lookup
decodes text e = (half, refl, record { unique = ground arith; same = λ k. refl })

apart : ApartAll disk codec "/aros" Apart keeps (values half.nodes)
unfolding disk
apart = (
  λ e. absurd (false≢true ((string_eq.beq_iff "/aros/state/node-build.json" "/aros/dag.json").1 e)),
  (
    λ e.
        absurd (false≢true ((string_eq.beq_iff "/aros/state/node-ship.json" "/aros/dag.json").1 e)),
    tt,
  ),
)

saved : (save_checkpoint disk codec "/aros" half []).0 ≡ ok tt
unfolding save_checkpoint save_nodes save_node_state disk codec
saved = refl

load_checkpoint-save_checkpoint_example :
    (h : DagGraph) × (load_checkpoint disk codec "/aros"
        (save_checkpoint disk codec "/aros" half []).1
      ≡ ok h)
    × UniqueKeys h.nodes
    × ((k : String) → lookup k h.nodes ≡ reset_option (lookup k half.nodes))
load_checkpoint-save_checkpoint_example =
    load_checkpoint-save_checkpoint disk codec "/aros" Apart keeps half [] apart decodes saved

half_deps : (a : String) → (deps_of half.nodes a ≡ []) ⊎ (deps_of half.nodes a ≡ "build" ∷ [])
unfolding lookup
half_deps a = ground arith

half-IsClosed : IsClosed half
unfolding lookup
half-IsClosed a b i = elim (half_deps a) [
  | inl e ↦ let j : In b [] = rw e at i in absurd j
  | inr e ↦
      let j : In b ("build" ∷ []) = rw e at i in
      elim j [ inl same ↦ rw same refl | inr none_left ↦ absurd none_left ]
]

half-Settled :
    (k : String) (n : Node) → lookup k half.nodes ≡ some n → Settled n ⊎ (n.status ≡ in_progress)
unfolding lookup
half-Settled k n h = ground arith

resume_completes_example :
    (h g' : DagGraph) × (load_checkpoint disk codec "/aros"
        (save_checkpoint disk codec "/aros" half []).1
      ≡ ok h)
    × (run 2 succeed (suc (waiting h)) h ≡ some (ok tt, g'))
    × (is_complete g' ≡ true)
resume_completes_example =
    resume_completes disk codec "/aros" Apart keeps 1 succeed half [] succeeds half-IsValid
      half-IsClosed half-Settled (λ e. cc) apart decodes saved
