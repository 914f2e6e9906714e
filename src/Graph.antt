-- ===== src/Graph.antt =====
-- TrustGraph of src/graph/index.ts: the nodes, the edges and the direct trust. Doubles are exact fractions,
-- and the weights of tasks are multiples of a fixed unit. Times are in milliseconds; the clock reads of one
-- call are one time, `now`. `recency` is exp(-0.01 * days) of the current time and a last interaction.
pub mod Fractions
pub mod Search
pub mod Queries
pub mod Edges
pub mod Trust
pub mod Fuel
pub mod Trails
pub mod Strongest
pub mod Answers
pub mod Simple
use atel_sdk.Base.{
  ℕ, suc, ◌+◌, ◌-◌, ◌*◌, String, Bool, true, false, not, ◌&&◌, ◌||◌, Option, none, some, List, [],
  ◌∷◌, ◌++◌, Map, lookup, insert, erase, is_some, filter, includes, map, length, eqb, ltb, leb,
  ◌==◌, concat, if◌then◌else◌,
}
use atel_sdk.Json.{Value}
use Fractions.{Fraction, den, nought, one, ratio, times, plus}

pub record GraphNode : Type 0 where
  pub agent_id : String
  pub registered_at : ℕ
  pub total_interactions : ℕ
  pub scenes : List String
  pub metadata : Option (Map Value)

pub record GraphEdge : Type 0 where
  pub from : String
  pub to : String
  pub scene : String
  pub total_tasks : ℕ
  pub successful_tasks : ℕ
  pub failed_tasks : ℕ
  pub total_weight : ℕ
  pub successful_weight : ℕ
  pub avg_duration_ms : Fraction
  pub last_interaction : ℕ
  pub consistency_score : Fraction

pub record InteractionRecord : Type 0 where
  pub from : String
  pub to : String
  pub scene : String
  pub success : Bool
  pub task_weight : ℕ
  pub duration_ms : ℕ

pub record TrustGraph : Type 0 where
  pub nodes : Map GraphNode
  pub edges : Map GraphEdge

abbrev pub empty_graph : TrustGraph
empty_graph = record { nodes = []; edges = [] }

unfoldable pub edge_key : String → String → String → String
edge_key from to scene = concat from (concat ":" (concat to (concat ":" scene)))

-- `{ ...existing, ...metadata }`
abbrev pub spread : Map Value → Map Value → Map Value
spread old [] = old
spread old ((k, v) ∷ new) = spread (insert k v old) new

abbrev pub metadata_or_empty : Option (Map Value) → Map Value
metadata_or_empty none = []
metadata_or_empty (some m) = m

abbrev pub updated_metadata : Option (Map Value) → Option (Map Value) → Option (Map Value)
updated_metadata old none = old
updated_metadata old (some new) = some (spread (metadata_or_empty old) new)

abbrev pub added_node : ℕ → String → Option (Map Value) → Option GraphNode → GraphNode
added_node now agent_id metadata (some n) = record n {
  metadata = updated_metadata n.metadata metadata;
}
added_node now agent_id metadata none = record {
  agent_id = agent_id;
  registered_at = now;
  total_interactions = 0;
  scenes = [];
  metadata = metadata;
}

unfoldable pub add_node : ℕ → String → Option (Map Value) → TrustGraph → TrustGraph
add_node now agent_id metadata g = record g {
  nodes = insert agent_id (added_node now agent_id metadata (lookup agent_id g.nodes)) g.nodes;
}

abbrev pub touches : String → GraphEdge → Bool
touches agent_id e = e.from == agent_id || e.to == agent_id

unfoldable pub remove_node : String → TrustGraph → TrustGraph
remove_node agent_id g = record {
  nodes = erase agent_id g.nodes;
  edges = filter (λ entry. not (touches agent_id entry.1)) g.edges;
}

-- `if (!this.nodes.has(id)) this.addNode(id)`
abbrev pub ensure_node : ℕ → String → TrustGraph → TrustGraph
ensure_node now agent_id g =
    if is_some (lookup agent_id g.nodes) then g else add_node now agent_id none g

abbrev pub counted : String → GraphNode → GraphNode
counted scene n = record n {
  total_interactions = n.total_interactions + 1;
  scenes = if includes n.scenes scene then n.scenes else n.scenes ++ scene ∷ [];
}

abbrev pub count_found : String → String → Option GraphNode → Map GraphNode → Map GraphNode
count_found agent_id scene none nodes = nodes
count_found agent_id scene (some n) nodes = insert agent_id (counted scene n) nodes

abbrev pub count_node : String → String → Map GraphNode → Map GraphNode
count_node agent_id scene nodes = count_found agent_id scene (lookup agent_id nodes) nodes

abbrev pub new_edge : ℕ → InteractionRecord → GraphEdge
new_edge now i = record {
  from = i.from;
  to = i.to;
  scene = i.scene;
  total_tasks = 0;
  successful_tasks = 0;
  failed_tasks = 0;
  total_weight = 0;
  successful_weight = 0;
  avg_duration_ms = nought;
  last_interaction = now;
  consistency_score = one;
}

abbrev pub edge_or_new : ℕ → InteractionRecord → Option GraphEdge → GraphEdge
edge_or_new now i none = new_edge now i
edge_or_new now i (some e) = e

-- 1 less the distance of this outcome from the rate, which is at most 1: the rate itself or what it lacks.
abbrev pub steadiness : Bool → ℕ → ℕ → Fraction
steadiness true successful total = ratio successful total
steadiness false successful total = ratio (total - successful) total

unfoldable pub updated_edge : ℕ → InteractionRecord → GraphEdge → GraphEdge
updated_edge now i e =
    let total = e.total_tasks + 1 in
    let successful = if i.success then e.successful_tasks + 1 else e.successful_tasks in
    record e {
      total_tasks = total;
      successful_tasks = successful;
      failed_tasks = if i.success then e.failed_tasks else e.failed_tasks + 1;
      total_weight = e.total_weight + i.task_weight;
      successful_weight =
          if i.success then e.successful_weight + i.task_weight else e.successful_weight;
      avg_duration_ms =
          times (plus (times e.avg_duration_ms (ratio e.total_tasks 1)) (ratio i.duration_ms 1))
            (ratio 1 total);
      last_interaction = now;
      consistency_score =
          plus (times e.consistency_score (ratio 9 10))
            (times (steadiness i.success successful total) (ratio 1 10));
    }

unfoldable pub record_interaction : ℕ → InteractionRecord → TrustGraph → TrustGraph
record_interaction now i g =
    let ready = ensure_node now i.to (ensure_node now i.from g) in
    let key = edge_key i.from i.to i.scene in
    record {
      nodes = count_node i.to i.scene (count_node i.from i.scene ready.nodes);
      edges =
          insert key (updated_edge now i (edge_or_new now i (lookup key ready.edges))) ready.edges;
    }

unfoldable pub get_edge : String → String → String → TrustGraph → Option GraphEdge
get_edge from to scene g = lookup (edge_key from to scene) g.edges

abbrev pub edge_list : TrustGraph → List GraphEdge
edge_list g = map (λ entry. entry.1) g.edges

unfoldable pub get_edges : String → TrustGraph → List GraphEdge
get_edges agent_id g = filter (touches agent_id) (edge_list g)

-- `min(1, total_tasks / 20)`
abbrev pub confidence_of : GraphEdge → Fraction
confidence_of e = if leb 20 e.total_tasks then one else ratio e.total_tasks 20

module _ (recency : ℕ → ℕ → Fraction) where
  -- The score of an edge, and its confidence.
  abbrev pub edge_trust : ℕ → Option GraphEdge → Fraction × Fraction
  edge_trust now none = (nought, nought)
  edge_trust now (some e) = if eqb e.total_weight 0 then (nought, nought) else (
    times
        (times (times (ratio e.successful_weight e.total_weight) (recency now e.last_interaction))
          e.consistency_score)
        (confidence_of e),
    confidence_of e,
  )

  unfoldable pub direct_trust : ℕ → TrustGraph → String → String → String → Fraction × Fraction
  direct_trust now g from to scene = edge_trust now (lookup (edge_key from to scene) g.edges)
