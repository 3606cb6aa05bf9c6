-- ===== src/Ivr/Flow.antt =====
-- The flow graph that core/ivr/IvrEngine.js walks: nodes, edges, and the lookups on them.
-- Ids, node types and edge handles are texts; an edge's handle is what `String(e.sourceHandle)` gives.
use callio.Prelude.{
  ℕ, String, ◌&&◌, Option, none, some, List, [], ◌∷◌, find, is_some, ◌===◌, is_truthy, lookup,
  insert, if◌then◌else◌,
}

-- The fields of `node.data` that the engine and the transfer handler read; an absent `data` has none.
pub record NodeData : Type 0 where
  pub label : Option String
  pub timeout_seconds : Option ℕ
  pub no_input_action : Option String
  pub dtmf_map : Option (List (String × String))
  pub target_type : Option String
  pub target_id : Option ℕ
  pub offline_action : Option String
  pub offline_audio_file_id : Option ℕ
  pub busy_action : Option String
  pub busy_audio_file_id : Option ℕ

pub record Node : Type 0 where
  pub id : String
  pub type : String
  pub node_data : NodeData

pub record Edge : Type 0 where
  pub source : String
  pub target : String
  pub source_handle : String

-- The fields that the constructor sets and nothing changes: `_nodes` as indexed, `_defaultTimeout` in
-- milliseconds. Audio is the URL that the media server fetches.
pub record Flow : Type 0 where
  pub call_id : ℕ
  pub nodes : List (String × Node)
  pub edges : List Edge
  pub default_timeout : ℕ
  pub error_audio : Option String
  pub audio_path_map : List (String × String)
  pub session_id : ℕ

index_from : List (String × Node) → List Node → List (String × Node)
index_from table [] = table
index_from table (n ∷ ns) = index_from (insert n.id n table) ns

unfoldable pub index_nodes : List Node → List (String × Node)
unfolding index_from
index_nodes ns = index_from [] ns

unfoldable pub find_by_type : String → List (String × Node) → Option Node
find_by_type t [] = none
find_by_type t ((_, n) ∷ ns) = if n.type === t then some n else find_by_type t ns

unfoldable pub edge_from : String → List Edge → Option Edge
edge_from id edges = find (λ e. e.source === id) edges

unfoldable pub edge_for_digit : String → String → List Edge → Option Edge
edge_for_digit id digit edges = find (λ e. (e.source === id) && (e.source_handle === digit)) edges

pub data RouteMethod : Type 0 where
  edge legacy_map : RouteMethod

-- The older way to name targets: a map in the node's data, used if its target exists.
unfoldable pub legacy_route : Flow → Node → String → Option (String × RouteMethod)
legacy_route flow node digit = elim node.node_data.dtmf_map [
  | none ↦ none
  | some m ↦ elim (lookup digit m) [
    | none ↦ none
    | some t ↦ if is_truthy t && is_some (lookup t flow.nodes) then some (t, legacy_map) else none
  ]
]

-- Where a digit leads from a node: `targetNodeId` and `routeMethod` of `_onDtmf`.
unfoldable pub choose_route : Flow → Node → String → Option (String × RouteMethod)
unfolding legacy_route
choose_route flow node digit = elim (edge_for_digit node.id digit flow.edges) [
  | none ↦ legacy_route flow node digit
  | some e ↦ if is_truthy e.target then some (e.target, edge) else legacy_route flow node digit
]
