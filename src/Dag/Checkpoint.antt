-- ===== src/Dag/Checkpoint.antt =====
-- src/dag/persistence.rs: a graph in files, and what a load makes of it. The file system is a type
-- `Files` with the functions of `std::fs`, a path is a text, and the JSON library is a pair of an
-- encoder and a decoder; all of them are parameters.
pub mod Restore
pub mod Resume
mod Examples
use Prim.Native.String
use aros_kernel.Prelude.{
  String, Bool, true, false, not, List, [], ◌∷◌, map, filter, if◌then◌else◌, string_eq,
}
use aros_kernel.Prelude.Map.{modify, values}
use aros_kernel.Prelude.Result.{Result, ok, err}
use aros_kernel.Dag.Graph.{Node, DagGraph, pending, in_progress, status_eq}
use aros_kernel.Dag.Executor.{set_status}

pub data PersistenceError : Type 0 where
  io serde : (message : String) → PersistenceError
  no_checkpoint : (path : String) → PersistenceError

pub record Disk (Files : Type 0) : Type 0 where
  pub join : (dir name : String) → String
  pub exists : String → Files → Bool
  pub create_dir_all : String → Files → Result Unit String × Files
  pub write : (path contents : String) → Files → Result Unit String × Files
  pub read_to_string : String → Files → Result String String
  pub remove_dir_all : String → Files → Result Unit String × Files

pub record Codec : Type 0 where
  pub encode_graph : DagGraph → Result String String
  pub encode_node : Node → Result String String
  pub decode_graph : String → Result DagGraph String

-- `?` after a call that may change the files, and after one that does not.
abbrev pub then_io :
    {Files : Type 0}
    → Result Unit String × Files
    → (Files → Result Unit PersistenceError × Files)
    → Result Unit PersistenceError × Files
then_io (ok _, fs) next = next fs
then_io (err e, fs) next = (err (io e), fs)

abbrev pub then_text :
    {Files : Type 0}
    → Result String String
    → Files
    → (String → Result Unit PersistenceError × Files)
    → Result Unit PersistenceError × Files
then_text (ok text) fs next = next text
then_text (err e) fs next = (err (serde e), fs)

abbrev pub node_file : String → String
node_file id = String.◌++◌ (String.◌++◌ "node-" id) ".json"

-- The keys of the nodes that were running, and the loop that resets them.
unfoldable pub running_ids : DagGraph → List String
running_ids g =
    map (λ (p : String × Node). p.0)
      (filter (λ (p : String × Node). status_eq p.1.status in_progress) g.nodes)

unfoldable pub reset_all : List String → DagGraph → DagGraph
reset_all [] g = g
reset_all (id ∷ ids) g = reset_all ids (record { nodes = modify id (set_status pending) g.nodes })

module _ {Files : Type 0} (disk : Disk Files) (codec : Codec) (base_path : String) where
  abbrev pub dag_json_path : String
  dag_json_path = disk.join base_path "dag.json"

  abbrev pub state_dir : String
  state_dir = disk.join base_path "state"

  unfoldable pub save_node_state : Node → Files → Result Unit PersistenceError × Files
  save_node_state node fs = then_io (disk.create_dir_all state_dir fs) λ made.
      then_text (codec.encode_node node) made λ json.
        then_io (disk.write (disk.join state_dir (node_file node.id)) json made)
          λ written. (ok tt, written)

  -- The loop of `save_checkpoint` over the nodes.
  unfoldable pub save_nodes : List Node → Files → Result Unit PersistenceError × Files
  unfolding save_node_state
  save_nodes [] fs = (ok tt, fs)
  save_nodes (node ∷ nodes) fs =
      let (answer, saved) = save_node_state node fs in
      elim answer [ err e ↦ (err e, saved) | ok _ ↦ save_nodes nodes saved ]

  unfoldable pub save_checkpoint : DagGraph → Files → Result Unit PersistenceError × Files
  unfolding save_nodes
  save_checkpoint graph fs = then_io (disk.create_dir_all state_dir fs) λ made.
      then_text (codec.encode_graph graph) made λ json.
        then_io (disk.write dag_json_path json made)
          λ written. save_nodes (values graph.nodes) written

  unfoldable pub load_checkpoint : Files → Result DagGraph PersistenceError
  unfolding running_ids reset_all
  load_checkpoint fs =
      if not (disk.exists dag_json_path fs)
      then err (no_checkpoint base_path)
      else elim (disk.read_to_string dag_json_path fs) [
        | err e ↦ err (io e)
        | ok json ↦ elim (codec.decode_graph json) [
          | err e ↦ err (serde e)
          | ok graph ↦ ok (reset_all (running_ids graph) graph)
        ]
      ]

  unfoldable pub has_checkpoint : Files → Bool
  has_checkpoint fs = disk.exists dag_json_path fs

  unfoldable pub clear : Files → Result Unit PersistenceError × Files
  clear fs =
      if disk.exists base_path fs
      then then_io (disk.remove_dir_all base_path fs) (λ cleared. (ok tt, cleared))
      else (ok tt, fs)
