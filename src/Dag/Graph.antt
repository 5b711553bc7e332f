-- ===== src/Dag/Graph.antt =====
-- src/dag/graph.rs: the nodes of a task graph, its queries, and the search for a cycle.
pub mod Walks
pub mod Bookkeeping
pub mod Search
pub mod Detection
pub mod Mutation
pub mod Ready
pub mod Status
use aros_kernel.Prelude.{
  ℕ, zero, suc, String, Bool, true, false, not, ◌&&◌, Option, none, some, List, [], ◌∷◌,
  if◌then◌else◌, ◌==◌, string_eq, length, filter, all, any, contains, insert_item, remove_item,
  count_if,
}
use aros_kernel.Prelude.Float.{F64}
use aros_kernel.Prelude.Map.{lookup, insert, remove, contains_key, keys, values}
use aros_kernel.Prelude.Result.{Result, ok, err}

pub data NodeStatus : Type 0 where
  pending in_progress done failed blocked : NodeStatus

pub data AgentLevel : Type 0 where
  session agent sub_agent : AgentLevel

pub record NodeResult : Type 0 where
  pub success : Bool
  pub output : String
  pub error : Option String
  pub duration_secs : F64

pub record Node : Type 0 where
  pub id : String
  pub title : String
  pub description : String
  pub depends_on : List String
  pub status : NodeStatus
  pub agent_level : AgentLevel
  pub output_files : List String
  pub retry_count : ℕ
  pub result : Option NodeResult

pub data DagError : Type 0 where
  cycle_detected node_not_found has_dependents duplicate_node node_in_progress : String → DagError

-- `PartialEq` of `NodeStatus`.
abbrev pub status_eq : NodeStatus → NodeStatus → Bool
status_eq pending pending = true
status_eq in_progress in_progress = true
status_eq done done = true
status_eq failed failed = true
status_eq blocked blocked = true
status_eq _ _ = false

-- The field `nodes` of `DagGraph`.
abbrev pub Nodes : Type 0
Nodes = List (String × Node)

pub record DagGraph : Type 0 where
  pub nodes : Nodes

-- The identifiers that a node waits for; none, if there is no such node.
abbrev pub deps_of : Nodes → String → List String
deps_of nodes id = elim (lookup id nodes) [ none ↦ [] | some n ↦ n.depends_on ]

-- The two sets that the search for a cycle carries.
pub record Marks : Type 0 where
  pub visited : List String
  pub stack : List String

-- One round of the loop in `dfs_cycle`. `rec` is the recursive call; `none` is the end of the fuel.
unfoldable pub visit_dep :
    (String → Marks → Option (Bool × Marks)) → Nodes → String → Marks → Option (Bool × Marks)
visit_dep rec nodes dep m = elim (contains_key dep nodes) [
  | true ↦ elim (contains m.visited dep) [
    | false ↦ rec dep m
    | true ↦ some (contains m.stack dep, m)
  ]
  | false ↦ some (false, m)
]

unfoldable pub scan_deps :
    (String → Marks → Option (Bool × Marks)) → Nodes → List String → Marks → Option (Bool × Marks)
scan_deps rec nodes [] m = some (false, m)
scan_deps rec nodes (dep ∷ deps) m = elim (visit_dep rec nodes dep m) [
  | none ↦ none
  | some (found, m') ↦ elim found [ true ↦ some (true, m') | false ↦ scan_deps rec nodes deps m' ]
]

-- `visited.insert(id); stack.insert(id)`
unfoldable pub enter : String → Marks → Marks
enter id m = record { visited = insert_item id m.visited; stack = insert_item id m.stack }

unfoldable pub leave : String → Marks → Marks
leave id m = record m { stack = remove_item id m.stack }

unfoldable pub dfs_cycle : Nodes → ℕ → String → Marks → Option (Bool × Marks)
dfs_cycle nodes zero id m = none
dfs_cycle nodes (suc fuel) id m =
    elim (scan_deps (dfs_cycle nodes fuel) nodes (deps_of nodes id) (enter id m)) [
      | none ↦ none
      | some (found, m') ↦ elim found [ true ↦ some (true, m') | false ↦ some (false, leave id m') ]
    ]

-- The loop of `has_cycle` over the keys of the map.
unfoldable pub search_keys : Nodes → ℕ → List String → Marks → Option Bool
search_keys nodes fuel [] m = some false
search_keys nodes fuel (id ∷ ids) m = elim (contains m.visited id) [
  | true ↦ search_keys nodes fuel ids m
  | false ↦ elim (dfs_cycle nodes fuel id m) [
    | none ↦ none
    | some (found, m') ↦ elim found [ true ↦ some true | false ↦ search_keys nodes fuel ids m' ]
  ]
]

-- The search with one unit of fuel for each node.
unfoldable pub search : Nodes → Option Bool
unfolding search_keys dfs_cycle scan_deps visit_dep enter leave contains insert_item remove_item
    lookup
search nodes = search_keys nodes (length nodes) (keys nodes) (record { visited = []; stack = [] })

unfoldable pub has_cycle : DagGraph → Bool
unfolding search
has_cycle g = elim (search g.nodes) [ none ↦ true | some found ↦ found ]

-- Errors leave the graph as the second component says.
unfoldable pub add_node : Node → DagGraph → Result (Unit {0}) DagError × DagGraph
unfolding insert remove
add_node node g =
    if contains_key node.id g.nodes
    then (err (duplicate_node node.id), g)
    else (let g' : DagGraph = record { nodes = insert node.id node g.nodes } in
        if has_cycle g'
        then (err (cycle_detected node.id), record { nodes = remove node.id g'.nodes })
        else (ok tt, g'))

-- Some other node names `id` among its dependencies.
unfoldable pub is_depended_on : String → Nodes → Bool
unfolding contains
is_depended_on id nodes =
    any (λ (p : String × Node). not (p.0 == id) && contains p.1.depends_on id) nodes

unfoldable pub remove_node : String → DagGraph → Result Node DagError × DagGraph
unfolding is_depended_on lookup remove
remove_node id g = elim (lookup id g.nodes) [
  | none ↦ (err (node_not_found id), g)
  | some node ↦
      if is_depended_on id g.nodes
      then (err (has_dependents id), g)
      else (ok node, record { nodes = remove id g.nodes })
]

abbrev pub get_node : DagGraph → String → Option Node
get_node g id = lookup id g.nodes

unfoldable pub is_done_in : Nodes → String → Bool
is_done_in nodes id = elim (lookup id nodes) [ none ↦ false | some dep ↦ status_eq dep.status done ]

unfoldable pub is_ready : Nodes → Node → Bool
unfolding is_done_in lookup
is_ready nodes n = status_eq n.status pending && all (is_done_in nodes) n.depends_on

unfoldable pub ready_nodes : DagGraph → List Node
unfolding is_ready
ready_nodes g = filter (is_ready g.nodes) (values g.nodes)

abbrev is_empty : Nodes → Bool
is_empty [] = true
is_empty (x ∷ xs) = false

unfoldable pub is_complete : DagGraph → Bool
is_complete g =
    not (is_empty g.nodes) && all (λ (n : Node). status_eq n.status done) (values g.nodes)

unfoldable pub has_failed : DagGraph → Bool
has_failed g = any (λ (n : Node). status_eq n.status failed) (values g.nodes)

unfoldable pub node_count : DagGraph → ℕ
node_count g = length g.nodes

unfoldable pub done_count : DagGraph → ℕ
done_count g = count_if (λ (n : Node). status_eq n.status done) (values g.nodes)
