-- ===== src/Tests/Graphs.antt =====
-- The theorems on the trust graph at a chain of five agents.
use atel_sdk.Base.{
  ℕ, ◌≤◌, ◌*◌, String, ◌≡◌, refl, true, Option, none, some, List, [], ◌∷◌, lookup, insert, erase,
  arith,
}
use atel_sdk.Graph.{
  InteractionRecord, TrustGraph, empty_graph, edge_list, direct_trust, record_interaction,
  remove_node, add_node, updated_edge, edge_key,
}
use atel_sdk.Graph.Fractions.{Fraction, den, IsUnit, one, times, plus, above}
use atel_sdk.Graph.Search.{Best, search, scan, leaves, better, push, path_trust, visits}
use atel_sdk.Graph.Queries.{query, best_path, indirect_trust, strongest_path, composite_trust}
use atel_sdk.Graph.Edges.{Change, interact, remove, change_all, IsSound, change_all-IsSound}
use atel_sdk.Graph.Answers.{
  IsAnswer, IsStrongest, best_path-ends, indirect_trust-IsAnswer, strongest_path-IsStrongest,
}
use atel_sdk.Graph.Simple.{IsSimple, indirect_trust-IsSimple}
use atel_sdk.Graph.Trust.{IsDecay, IsPast, composite_trust-IsUnit}

abbrev task : String → String → InteractionRecord
task from to = record {
  from = from;
  to = to;
  scene = "search";
  success = true;
  task_weight = 2;
  duration_ms = 10;
}

abbrev changes : List Change
changes =
    interact 1 (task "a" "b")
    ∷ interact 2 (task "b" "c")
    ∷ interact 3 (task "c" "d")
    ∷ interact 4 (task "d" "e")
    ∷ interact 5 (task "x" "a")
    ∷ remove "x"
    ∷ []

abbrev graph : TrustGraph
graph = change_all changes empty_graph

abbrev recency : ℕ → ℕ → Fraction
recency now last = one

graph-IsSound : IsSound graph
graph-IsSound = change_all-IsSound changes empty_graph tt

abbrev path_in : Option Best → List String
path_in none = []
path_in (some b) = b.path

-- Four hops, one more than the depth of 3.
four_hops :
    path_in (strongest_path recency 9 graph "a" "e" "search") ≡ "a" ∷ "b" ∷ "c" ∷ "d" ∷ "e" ∷ []
unfolding strongest_path best_path search scan leaves better push path_trust times above visits
    direct_trust record_interaction remove_node add_node updated_edge plus edge_key lookup insert
    erase
four_hops = refl

change_all-IsSound_example : IsSound graph
change_all-IsSound_example = change_all-IsSound changes empty_graph tt

best_path-ends_example : (b : Best) × (best_path recency 9 graph "a" "e" "search" 1 3 ≡ some b)
best_path-ends_example = best_path-ends recency 9 graph "a" "e" "search" 1 3

indirect_trust-IsAnswer_example :
    IsAnswer
      (query recency 9 graph "c" "search" 2 3)
      (edge_list graph)
      "a"
      (indirect_trust recency 9 graph "a" "c" "search" 3).trust_score
      (indirect_trust recency 9 graph "a" "c" "search" 3).path
indirect_trust-IsAnswer_example = indirect_trust-IsAnswer recency 9 graph "a" "c" "search" 3 refl

strongest_path-IsStrongest_example :
    IsStrongest
      (query recency 9 graph "d" "search" 1 3)
      (edge_list graph)
      "a"
      (strongest_path recency 9 graph "a" "d" "search")
strongest_path-IsStrongest_example =
    strongest_path-IsStrongest recency 9 graph "a" "d" "search" refl

two_hops : (indirect_trust recency 9 graph "a" "c" "search" 3).path ≡ some ("a" ∷ "b" ∷ "c" ∷ [])
unfolding indirect_trust best_path search scan leaves better push path_trust times above visits
    direct_trust record_interaction remove_node add_node updated_edge plus edge_key lookup insert
    erase
two_hops = refl

indirect_trust-IsSimple_example :
    IsSimple ("a" ∷ []) (query recency 9 graph "c" "search" 2 3) ("a" ∷ "b" ∷ "c" ∷ [])
indirect_trust-IsSimple_example =
    indirect_trust-IsSimple recency 9 graph "a" "c" "search" 3 ("a" ∷ "b" ∷ "c" ∷ []) refl two_hops

never_more : IsDecay recency
never_more now last past = omega arith

graph-IsPast : IsPast 9 graph
unfolding record_interaction remove_node add_node updated_edge edge_key lookup insert erase
graph-IsPast = (omega arith, (omega arith, (omega arith, (omega arith, tt))))

composite_trust-IsUnit_example :
    IsUnit (direct_trust recency 9 graph "a" "b" "search").0
    × IsUnit (indirect_trust recency 9 graph "a" "b" "search" 3).trust_score
    × ((composite_trust recency 9 graph "a" "b" "search").trust_score.num * 100
        ≤ 95 * den (composite_trust recency 9 graph "a" "b" "search").trust_score)
composite_trust-IsUnit_example =
    composite_trust-IsUnit recency 9 graph "a" "b" "search" never_more graph-IsPast graph-IsSound
