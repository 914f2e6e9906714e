-- ===== src/Graph/Simple.antt =====
-- The shape of the paths that the searches of src/graph/index.ts return.
use mathlib.Core.List.{append_assoc}
use atel_sdk.Base.{
  ℕ, ◌+◌, ◌≤◌, ◌<◌, String, ◌≡◌, refl, ◌∙◌, true, false, some, List, [], ◌∷◌, ◌++◌, has_key,
  IsDistinctBy, append-IsDistinctBy, last_or, last_or-append, length, length-append, ◌==◌, eq_iff,
  arith,
}
use atel_sdk.Graph.{GraphEdge, TrustGraph, edge_list}
use atel_sdk.Graph.Fractions.{Fraction}
use atel_sdk.Graph.Search.{Query, QueueItem, first_item, leaves, next_item}
use atel_sdk.Graph.Queries.{query, indirect_trust}
use atel_sdk.Graph.Trails.{Trail, arrive, onward, IsWithin, next-IsWithin}
use atel_sdk.Graph.Answers.{indirect_trust-IsAnswer}

-- A path that goes on from the one so far to the target, with no agent twice.
pub record IsSimple (start : List String) (q : Query) (path : List String) : Type 0 where
  pub rest : List String
  pub goes_on : path ≡ start ++ rest
  pub ends : last_or "" path ≡ q.target
  pub none_twice : IsDistinctBy (λ x. x) path
  pub long_enough : q.shortest < length path
  pub not_too_long : length path ≤ q.max_depth + 2

leaves-new :
    (q : Query) (item : QueueItem) (e : GraphEdge)
    → leaves q item e ≡ true
    → has_key (λ x. x) e.to item.path ≡ false
unfolding leaves
leaves-new q item e h = ground (arith, h)

pub trail-IsSimple :
    (q : Query) (edges : List GraphEdge) (item : QueueItem) (t : Fraction) (p : List String)
    → Trail q edges item t p
    → IsDistinctBy (λ x. x) item.path
    → IsWithin q item
    → IsSimple item.path q p
trail-IsSimple q edges item _ _ (arrive _ e at_e leaving arriving long) distinct within = record {
  rest = e.to ∷ [];
  goes_on = refl;
  ends = last_or-append "" e.to item.path ∙ (eq_iff e.to q.target).0 arriving;
  none_twice = append-IsDistinctBy (λ x. x) item.path e.to distinct (leaves-new q item e leaving);
  long_enough = ground (arith, long, length-append item.path (e.to ∷ []));
  not_too_long = ground (arith, within, length-append item.path (e.to ∷ []));
}
trail-IsSimple q edges item t p (onward _ e _ _ at_e leaving passing inner trail) distinct within =
    let further =
      trail-IsSimple q edges (next_item q item e) t p trail
        (append-IsDistinctBy (λ x. x) item.path e.to distinct (leaves-new q item e leaving))
        (next-IsWithin q item e inner) in
    record {
      rest = e.to ∷ further.rest;
      goes_on = further.goes_on ∙ append_assoc item.path (e.to ∷ []) further.rest;
      ends = further.ends;
      none_twice = further.none_twice;
      long_enough = further.long_enough;
      not_too_long = further.not_too_long;
    }

-- A path of the indirect trust between different agents starts at the one and ends at the other, passes no
-- agent twice, and has from two hops to one hop more than the depth asked for.
pub indirect_trust-IsSimple :
    (recency : ℕ → ℕ → Fraction) (now : ℕ) (g : TrustGraph) (from to scene : String) (max_depth : ℕ)
    (path : List String)
    → (from == to) ≡ false
    → (indirect_trust recency now g from to scene max_depth).path ≡ some path
    → IsSimple (from ∷ []) (query recency now g to scene 2 max_depth) path
indirect_trust-IsSimple recency now g from to scene max_depth path apart found =
    let answer =
      rw found at (indirect_trust-IsAnswer recency now g from to scene max_depth apart) in
    trail-IsSimple (query recency now g to scene 2 max_depth) (edge_list g) (first_item from) _ path
      answer.0 (refl, tt) (ground arith)
