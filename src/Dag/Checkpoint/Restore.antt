-- ===== src/Dag/Checkpoint/Restore.antt =====
-- src/dag/persistence.rs: what is loaded is what was saved, with the running nodes waiting again.
use aros_kernel.Prelude.{
  String, ◌≡◌, inl, inr, refl, sym, ap, ◌∙◌, true, false, Option, none, some, List, [], ◌∷◌, arith,
  string_eq, Bool-cases, Option-cases, if◌then◌else◌, contains, All,
}
use aros_kernel.Prelude.Map.{lookup, modify, values, lookup-modify, UniqueKeys, UniqueKeys-modify}
use aros_kernel.Prelude.Result.{Result, ok, err, Result-cases}
use aros_kernel.Dag.Graph.{Node, DagGraph, Nodes, pending, in_progress, status_eq}
use aros_kernel.Dag.Graph.Mutation.{IsValid}
use aros_kernel.Dag.Graph.Status.{modify-IsValid}
use aros_kernel.Dag.Executor.{set_status}
use aros_kernel.Dag.Checkpoint.{
  Disk, Codec, PersistenceError, then_io, then_text, node_file, running_ids, reset_all,
  dag_json_path, state_dir, save_node_state, save_nodes, save_checkpoint, load_checkpoint,
}

-- What a load does to a node.
abbrev pub reset : Node → Node
reset n = if status_eq n.status in_progress then set_status pending n else n

abbrev pub reset_option : Option Node → Option Node
reset_option none = none
reset_option (some n) = some (reset n)

lookup-reset_all :
    (ids : List String) (g : DagGraph) (k : String)
    → lookup k (reset_all ids g).nodes ≡ (
        if contains ids k
        then elim (lookup k g.nodes) [ none ↦ none | some n ↦ some (set_status pending n) ]
        else lookup k g.nodes)
unfolding reset_all contains
lookup-reset_all [] g k = refl
lookup-reset_all (id ∷ ids) g k = ground (
  arith,
  lookup-reset_all ids (record { nodes = modify id (set_status pending) g.nodes }) k,
  lookup-modify id k (set_status pending) g.nodes,
  string_eq.beq_iff id k,
)

running_keys-lookup :
    (nodes : Nodes) (k : String)
    → UniqueKeys nodes
    → contains (running_ids (record { nodes = nodes })) k
      ≡ elim (lookup k nodes) [ none ↦ false | some n ↦ status_eq n.status in_progress ]
unfolding running_ids contains lookup
running_keys-lookup [] k u = refl
running_keys-lookup ((j, w) ∷ nodes) k u =
    ground (arith, string_eq.beq_iff j k, running_keys-lookup nodes k u.1)

-- A load resets the nodes that were running and leaves the others.
lookup-restored :
    (g : DagGraph) (k : String)
    → UniqueKeys g.nodes
    → lookup k (reset_all (running_ids g) g).nodes ≡ reset_option (lookup k g.nodes)
lookup-restored g k u = elim (Option-cases (lookup k g.nodes)) [
  | inl gone ↦ ground (arith, lookup-reset_all (running_ids g) g k, running_keys-lookup g.nodes k u)
  | inr (n, here) ↦ ground (
    arith,
    lookup-reset_all (running_ids g) g k,
    running_keys-lookup g.nodes k u,
    Bool-cases (status_eq n.status in_progress),
  )
]

unique_reset_all :
    (ids : List String) (g : DagGraph) → UniqueKeys g.nodes → UniqueKeys (reset_all ids g).nodes
unfolding reset_all
unique_reset_all [] g u = u
unique_reset_all (id ∷ ids) g u =
    unique_reset_all ids _ (UniqueKeys-modify id (set_status pending) g.nodes u)

reset_all-IsValid : (ids : List String) (g : DagGraph) → IsValid g → IsValid (reset_all ids g)
unfolding reset_all
reset_all-IsValid [] g v = v
reset_all-IsValid (id ∷ ids) g v =
    reset_all-IsValid ids _ (modify-IsValid id (set_status pending) (λ n. refl) (λ n. refl) g v)

-- What holds of the files before a call and after each of its continuations holds at the end.
then_io-holds :
    {Files : Type 0} (P : Files → Type 0) (r : Result Unit String × Files)
    (next : Files → Result Unit PersistenceError × Files)
    → P r.1
    → ((fs : Files) → P fs → P (next fs).1)
    → P (then_io r next).1
then_io-holds P (ok u, fs) next p step = step fs p
then_io-holds P (err e, fs) next p step = p

then_text-holds :
    {Files : Type 0} (P : Files → Type 0) (r : Result String String) (fs : Files)
    (next : String → Result Unit PersistenceError × Files)
    → P fs
    → ((text : String) → P (next text).1)
    → P (then_text r fs next).1
then_text-holds P (ok text) fs next p step = step text
then_text-holds P (err e) fs next p step = p

-- A chain that succeeds went through its first call.
then_io-ok :
    {Files : Type 0} (r : Result Unit String × Files)
    (next : Files → Result Unit PersistenceError × Files)
    → (then_io r next).0 ≡ ok tt
    → (r.0 ≡ ok tt) × (then_io r next ≡ next r.1)
then_io-ok (ok tt, fs) next h = (refl, refl)
then_io-ok (err e, fs) next h = absurd (ground arith)

then_text-ok :
    {Files : Type 0} (r : Result String String) (fs : Files)
    (next : String → Result Unit PersistenceError × Files)
    → (then_text r fs next).0 ≡ ok tt
    → (text : String) × (r ≡ ok text) × (then_text r fs next ≡ next text)
then_text-ok (ok text) fs next h = (text, refl, refl)
then_text-ok (err e) fs next h = absurd (ground arith)

-- What the files keep: a text that was written is read back, and a write does not touch a file that
-- is `Apart` from it.
pub record Keeps {Files : Type 0} (disk : Disk Files) (Apart : String → String → Type 0)
    : Type 0 where
  pub read_written :
      (path text : String) (fs : Files)
      → (disk.write path text fs).0 ≡ ok tt
      → disk.read_to_string path (disk.write path text fs).1 ≡ ok text
  pub read_other :
      (path text other : String) (fs : Files)
      → Apart path other
      → disk.read_to_string other (disk.write path text fs).1 ≡ disk.read_to_string other fs
  pub read_made :
      (path other : String) (fs : Files)
      → disk.read_to_string other (disk.create_dir_all path fs).1 ≡ disk.read_to_string other fs
  pub exists_read :
      (path text : String) (fs : Files)
      → disk.read_to_string path fs ≡ ok text
      → disk.exists path fs ≡ true

-- Two graphs that are the same map; the order in which a map is walked is not kept.
pub record SameMap (g h : DagGraph) : Type 0 where
  pub unique : UniqueKeys h.nodes
  pub same : (k : String) → lookup k h.nodes ≡ lookup k g.nodes

-- What is encoded can be decoded.
abbrev pub Decodes : Codec → DagGraph → Type 0
Decodes codec g =
    (text : String)
    → codec.encode_graph g ≡ ok text
    → (h : DagGraph) × (codec.decode_graph text ≡ ok h) × SameMap g h

module _ {Files : Type 0} (disk : Disk Files) (codec : Codec) (base_path : String)
    (Apart : String → String → Type 0) (keeps : Keeps disk Apart) where
  abbrev target : String
  target = dag_json_path disk codec base_path

  -- No node has a file that is the one of the graph.
  abbrev pub ApartAll : List Node → Type 0
  ApartAll nodes =
      All (λ n. Apart (disk.join (state_dir disk codec base_path) (node_file n.id)) target) nodes

  save_node_state-reads :
      (node : Node) (fs : Files)
      → Apart (disk.join (state_dir disk codec base_path) (node_file node.id)) target
      → disk.read_to_string target (save_node_state disk codec base_path node fs).1
        ≡ disk.read_to_string target fs
  unfolding save_node_state
  save_node_state-reads node fs apart =
      then_io-holds Same (disk.create_dir_all _ fs) _ (keeps.read_made _ target fs) λ made p.
        then_text-holds Same (codec.encode_node node) made _ p λ json.
          then_io-holds Same (disk.write _ json made) _
            (keeps.read_other _ json target made apart ∙ p) (λ written q. q)
    where
      Same : Files → Type 0
      Same now = disk.read_to_string target now ≡ disk.read_to_string target fs

  save_nodes-reads :
      (nodes : List Node) (fs : Files)
      → ApartAll nodes
      → disk.read_to_string target (save_nodes disk codec base_path nodes fs).1
        ≡ disk.read_to_string target fs
  unfolding save_nodes
  save_nodes-reads [] fs apart = refl
  save_nodes-reads (node ∷ nodes) fs apart =
      elim (Result-cases (save_node_state disk codec base_path node fs).0) [
        | inl (u, fine) ↦
            rw (fine, save_nodes)
              (save_nodes-reads nodes (save_node_state disk codec base_path node fs).1 apart.1
                ∙ save_node_state-reads node fs apart.0)
        | inr (e, bad) ↦ rw (bad, save_nodes) (save_node_state-reads node fs apart.0)
      ]

  -- After a save that succeeds, the file of the graph holds its text.
  save_checkpoint-reads :
      (g : DagGraph) (fs : Files)
      → ApartAll (values g.nodes)
      → (save_checkpoint disk codec base_path g fs).0 ≡ ok tt
      → (text : String) × (codec.encode_graph g ≡ ok text)
        × (disk.read_to_string target (save_checkpoint disk codec base_path g fs).1 ≡ ok text)
  unfolding save_checkpoint
  save_checkpoint-reads g fs apart saved =
      let made = disk.create_dir_all (state_dir disk codec base_path) fs in
      let (_, e) = then_io-ok made _ saved in
      let (text, encoded, f) =
        then_text-ok (codec.encode_graph g) made.1 _ (ap (λ r. r.0) (sym e) ∙ saved) in
      let (wrote, k) =
        then_io-ok (disk.write target text made.1)
          (save_nodes disk codec base_path (values g.nodes))
          (ap (λ r. r.0) (sym f) ∙ (ap (λ r. r.0) (sym e) ∙ saved)) in
      (
        text,
        encoded,
        ap (λ r. disk.read_to_string target r.1) (e ∙ (f ∙ k))
            ∙ (save_nodes-reads (values g.nodes) _ apart
                ∙ keeps.read_written target text made.1 wrote),
      )

  load_text :
      (fs : Files) (text : String) (h : DagGraph)
      → disk.read_to_string target fs ≡ ok text
      → codec.decode_graph text ≡ ok h
      → load_checkpoint disk codec base_path fs ≡ ok (reset_all (running_ids h) h)
  unfolding load_checkpoint
  load_text fs text h read decoded = rw (keeps.exists_read target text fs read, read, decoded) refl

  -- A checkpoint that was saved without an error is loaded without one: the graph has the same
  -- nodes under the same identifiers, and those that were in progress are pending again. The files
  -- keep what is written, no node has the file of the graph, and what is encoded can be decoded.
  pub load_checkpoint-save_checkpoint :
      (g : DagGraph) (fs : Files)
      → ApartAll (values g.nodes)
      → Decodes codec g
      → (save_checkpoint disk codec base_path g fs).0 ≡ ok tt
      → (h : DagGraph) × (load_checkpoint disk codec base_path
            (save_checkpoint disk codec base_path g fs).1
          ≡ ok h)
        × UniqueKeys h.nodes
        × ((k : String) → lookup k h.nodes ≡ reset_option (lookup k g.nodes))
  load_checkpoint-save_checkpoint g fs apart decodes saved =
      let (text, encoded, read) = save_checkpoint-reads g fs apart saved in
      let (h, decoded, m) = decodes text encoded in
      (
        reset_all (running_ids h) h,
        load_text (save_checkpoint disk codec base_path g fs).1 text h read decoded,
        unique_reset_all (running_ids h) h m.unique,
        λ k. lookup-restored h k m.unique ∙ ap reset_option (m.same k),
      )
