-- ===== src/Graph/Edges.antt =====
-- What the operations of src/graph/index.ts keep of the graph.
use native.Mathlib.Nat.{mul-le-mul_right}
use atel_sdk.Base.{
  ℕ, ◌+◌, ◌-◌, ◌≤◌, String, ◌≡◌, refl, subst, ◌∙◌, true, false, not, Option, none, List, [], ◌∷◌,
  All, All-weaken, All-filter, All-insert, All-lookup, Map, lookup, insert, erase, lookup-insert,
  lookup-insert_self, lookup-erase, is_some, ◌==◌, eq_iff, Bool-cases, Option-cases, inl, inr,
  if-elim, arith,
}
use atel_sdk.Json.{Value}
use atel_sdk.Graph.{
  GraphNode, GraphEdge, InteractionRecord, TrustGraph, add_node, remove_node, ensure_node,
  count_node, counted, new_edge, edge_or_new, updated_edge, record_interaction, edge_key, touches,
  added_node,
}
use atel_sdk.Graph.Fractions.{Fraction, den, IsUnit, ratio, times, plus}

-- The counts of an edge: each task succeeded or failed, and the weights and the consistency are as they count.
pub record IsCounted (e : GraphEdge) : Type 0 where
  pub tasks : e.total_tasks ≡ e.successful_tasks + e.failed_tasks
  pub weights : e.successful_weight ≤ e.total_weight
  pub consistent : IsUnit e.consistency_score

-- Both agents of an edge are nodes.
abbrev pub Connects : Map GraphNode → GraphEdge → Type 0
Connects nodes e = (is_some (lookup e.from nodes) ≡ true) × (is_some (lookup e.to nodes) ≡ true)

abbrev pub IsSound : TrustGraph → Type 0
IsSound g = All (λ entry. IsCounted entry.1 × Connects g.nodes entry.1) g.edges

average-IsUnit :
    (a b : Fraction)
    → IsUnit a
    → IsUnit b
    → IsUnit (plus (times a (ratio 9 10)) (times b (ratio 1 10)))
unfolding plus times
average-IsUnit a b h k = grind (arith, mul-le-mul_right (den b) h, mul-le-mul_right (den a) k)

updated-IsCounted :
    (now : ℕ) (i : InteractionRecord) (e : GraphEdge)
    → IsCounted e
    → IsCounted (updated_edge now i e)
unfolding updated_edge
updated-IsCounted now i e h = elim (Bool-cases i.success) [
  | inl good ↦ rw good (record {
    tasks = omega (arith, h.tasks);
    weights = omega (arith, h.weights);
    consistent =
        average-IsUnit e.consistency_score (ratio (e.successful_tasks + 1) (e.total_tasks + 1))
          h.consistent (omega (arith, h.tasks));
  })
  | inr bad ↦ rw bad (record {
    tasks = omega (arith, h.tasks);
    weights = omega (arith, h.weights);
    consistent =
        average-IsUnit e.consistency_score
          (ratio (e.total_tasks + 1 - e.successful_tasks) (e.total_tasks + 1)) h.consistent
          (omega (arith, h.tasks));
  })
]

new-IsCounted : (now : ℕ) (i : InteractionRecord) → IsCounted (new_edge now i)
new-IsCounted now i = record { tasks = refl; weights = omega arith; consistent = omega arith }

-- A node that is there stays when another is set.
insert-keeps :
    (k j : String) (n : GraphNode) (nodes : Map GraphNode)
    → is_some (lookup j nodes) ≡ true
    → is_some (lookup j (insert k n nodes)) ≡ true
insert-keeps k j n nodes h =
    subst (λ o. is_some o ≡ true) (lookup-insert k n nodes j)
      (if-elim (λ o. is_some o ≡ true) (k == j) refl h)

insert-there :
    (k : String) (n : GraphNode) (nodes : Map GraphNode)
    → is_some (lookup k (insert k n nodes)) ≡ true
insert-there k n nodes = rw (lookup-insert_self k n nodes) refl

count_node-keeps :
    (k scene j : String) (nodes : Map GraphNode)
    → is_some (lookup j nodes) ≡ true
    → is_some (lookup j (count_node k scene nodes)) ≡ true
count_node-keeps k scene j nodes h = elim (Option-cases (lookup k nodes)) [
  | inl missing ↦ rw missing h
  | inr (n, found) ↦ rw found (insert-keeps k j (counted scene n) nodes h)
]

ensure_node-keeps :
    (now : ℕ) (k j : String) (g : TrustGraph)
    → is_some (lookup j g.nodes) ≡ true
    → is_some (lookup j (ensure_node now k g).nodes) ≡ true
unfolding add_node
ensure_node-keeps now k j g h =
    if-elim (λ (r : TrustGraph). is_some (lookup j r.nodes) ≡ true) (is_some (lookup k g.nodes)) h
      (insert-keeps k j (added_node now k none (lookup k g.nodes)) g.nodes h)

ensure_node-there :
    (now : ℕ) (k : String) (g : TrustGraph) → is_some (lookup k (ensure_node now k g).nodes) ≡ true
unfolding add_node
ensure_node-there now k g = elim (Bool-cases (is_some (lookup k g.nodes))) [
  | inl there ↦ rw there there
  | inr missing ↦ rw missing (insert-there k (added_node now k none (lookup k g.nodes)) g.nodes)
]

ensure_node-edges : (now : ℕ) (k : String) (g : TrustGraph) → (ensure_node now k g).edges ≡ g.edges
unfolding add_node
ensure_node-edges now k g =
    if-elim (λ (r : TrustGraph). r.edges ≡ g.edges) (is_some (lookup k g.nodes)) refl refl

-- The operations that change a graph.
pub data Change : Type 0 where
  add : ℕ → String → Option (Map Value) → Change
  remove : String → Change
  interact : ℕ → InteractionRecord → Change

abbrev pub change : Change → TrustGraph → TrustGraph
change (add now agent_id metadata) g = add_node now agent_id metadata g
change (remove agent_id) g = remove_node agent_id g
change (interact now i) g = record_interaction now i g

abbrev pub change_all : List Change → TrustGraph → TrustGraph
change_all [] g = g
change_all (c ∷ changes) g = change_all changes (change c g)

add_node-IsSound :
    (now : ℕ) (agent_id : String) (metadata : Option (Map Value)) (g : TrustGraph)
    → IsSound g
    → IsSound (add_node now agent_id metadata g)
unfolding add_node
add_node-IsSound now agent_id metadata g h =
    let keeps = λ (j : String).
      insert-keeps agent_id j (added_node now agent_id metadata (lookup agent_id g.nodes))
        g.nodes in
    All-weaken (λ entry k. (k.0, (keeps entry.1.from k.1.0, keeps entry.1.to k.1.1))) g.edges h

erase-keeps :
    (k j : String) (nodes : Map GraphNode)
    → (j == k) ≡ false
    → is_some (lookup j nodes) ≡ true
    → is_some (lookup j (erase k nodes)) ≡ true
erase-keeps k j nodes apart h =
    let other : (k == j) ≡ false = ground (arith, apart, eq_iff j k, eq_iff k j) in
    subst (λ o. is_some o ≡ true) (rw other at (lookup-erase k nodes j)) h

remove_node-IsSound :
    (agent_id : String) (g : TrustGraph) → IsSound g → IsSound (remove_node agent_id g)
unfolding remove_node
remove_node-IsSound agent_id g h =
    All-filter (λ entry. not (touches agent_id entry.1))
      (λ entry apart k. (
        k.0,
        (
          erase-keeps agent_id entry.1.from g.nodes (ground (arith, apart)) k.1.0,
          erase-keeps agent_id entry.1.to g.nodes (ground (arith, apart)) k.1.1,
        ),
      ))
      g.edges h

-- The edge that an interaction updates.
edge-IsCounted :
    (now : ℕ) (i : InteractionRecord) (nodes : Map GraphNode) (key : String) (edges : Map GraphEdge)
    → All (λ entry. IsCounted entry.1 × Connects nodes entry.1) edges
    → is_some (lookup i.from nodes) ≡ true
    → is_some (lookup i.to nodes) ≡ true
    → IsCounted (updated_edge now i (edge_or_new now i (lookup key edges)))
      × Connects nodes (updated_edge now i (edge_or_new now i (lookup key edges)))
unfolding updated_edge
edge-IsCounted now i nodes key edges h from to = elim (Option-cases (lookup key edges)) [
  | inl missing ↦
      rw missing (updated-IsCounted now i (new_edge now i) (new-IsCounted now i), (from, to))
  | inr (e, found) ↦ rw found (
      let (own, connects) = All-lookup (λ e. IsCounted e × Connects nodes e) key e edges h found in
      (updated-IsCounted now i e own, connects))
]

record_interaction-IsSound :
    (now : ℕ) (i : InteractionRecord) (g : TrustGraph)
    → IsSound g
    → IsSound (record_interaction now i g)
unfolding record_interaction
record_interaction-IsSound now i g h =
    let first = ensure_node now i.from g in
    let ready = ensure_node now i.to first in
    let edges : ready.edges ≡ g.edges =
      ensure_node-edges now i.to first ∙ ensure_node-edges now i.from g in
    let once = count_node i.from i.scene ready.nodes in
    let nodes = count_node i.to i.scene once in
    let counts = λ (j : String) (k : is_some (lookup j ready.nodes) ≡ true).
      count_node-keeps i.to i.scene j once (count_node-keeps i.from i.scene j ready.nodes k) in
    let keeps = λ (j : String) (k : is_some (lookup j g.nodes) ≡ true).
      counts j (ensure_node-keeps now i.to j first (ensure_node-keeps now i.from j g k)) in
    let from =
      counts i.from (ensure_node-keeps now i.to i.from first (ensure_node-there now i.from g)) in
    let to = counts i.to (ensure_node-there now i.to first) in
    let key = edge_key i.from i.to i.scene in
    let old : All (λ entry. IsCounted entry.1 × Connects nodes entry.1) ready.edges = rw edges (
      All-weaken (λ entry k. (k.0, (keeps entry.1.from k.1.0, keeps entry.1.to k.1.1))) g.edges
        h) in
    All-insert (λ entry. IsCounted entry.1 × Connects nodes entry.1) key
      (updated_edge now i (edge_or_new now i (lookup key ready.edges))) ready.edges
      (edge-IsCounted now i nodes key ready.edges old from to) old

change-IsSound : (c : Change) (g : TrustGraph) → IsSound g → IsSound (change c g)
change-IsSound (add now agent_id metadata) g h = add_node-IsSound now agent_id metadata g h
change-IsSound (remove agent_id) g h = remove_node-IsSound agent_id g h
change-IsSound (interact now i) g h = record_interaction-IsSound now i g h

-- However a graph that starts empty, or has this, is changed by adding nodes, removing them and recording interactions, both
-- agents of every edge are nodes; and on every edge each task has succeeded or failed, the successful weight
-- is at most the total, and the consistency is between 0 and 1.
pub change_all-IsSound :
    (changes : List Change) (g : TrustGraph) → IsSound g → IsSound (change_all changes g)
change_all-IsSound [] g h = h
change_all-IsSound (c ∷ changes) g h =
    change_all-IsSound changes (change c g) (change-IsSound c g h)
