-- ===== src/Graph/Search.antt =====
-- The searches of src/graph/index.ts along edges: the loops of indirectTrust and strongestPath, which differ
-- in the fewest nodes of a path to its last edge (`shortest`) and the depth. A search runs on fuel.
use atel_sdk.Base.{
  ℕ, zero, suc, ◌+◌, ◌-◌, ◌*◌, String, Bool, not, ◌&&◌, Option, none, some, List, [], ◌∷◌, ◌++◌,
  includes, length, ltb, leb, ◌==◌, if◌then◌else◌,
}
use atel_sdk.Graph.{GraphEdge}
use atel_sdk.Graph.Fractions.{Fraction, nought, one, ratio, times, power, above}

pub record QueueItem : Type 0 where
  pub node : String
  pub path : List String
  pub trust : Fraction

pub record Best : Type 0 where
  pub trust : Fraction
  pub path : List String

-- The best path so far, and what one round of the loop pushes.
pub record Round : Type 0 where
  pub best : Best
  pub pushed : List QueueItem

abbrev pub hop_decay : Fraction
hop_decay = ratio 7 10

abbrev pub no_path : Best
no_path = record { trust = nought; path = [] }

abbrev pub first_item : String → QueueItem
first_item from = record { node = from; path = from ∷ []; trust = one }

-- What a search is asked for, with the direct trust of a pair of agents in the scene.
pub record Query : Type 0 where
  pub direct : String → String → Fraction
  pub scene : String
  pub target : String
  pub shortest : ℕ
  pub max_depth : ℕ

module _ (q : Query) where
  unfoldable pub path_trust : QueueItem → GraphEdge → Fraction
  path_trust item e =
      times (times item.trust (q.direct e.from e.to)) (power hop_decay (length item.path - 1))

  -- An edge that leaves the item's node in the scene, to a node that is not on its path.
  unfoldable pub leaves : QueueItem → GraphEdge → Bool
  leaves item e = e.from == item.node && (e.scene == q.scene && not (includes item.path e.to))

  unfoldable pub better : QueueItem → GraphEdge → Best → Best
  better item e best =
      if leb q.shortest (length item.path) && above (path_trust item e) best.trust
      then record { trust = path_trust item e; path = item.path ++ e.to ∷ [] }
      else best

  abbrev pub next_item : QueueItem → GraphEdge → QueueItem
  next_item item e = record {
    node = e.to;
    path = item.path ++ e.to ∷ [];
    trust = times item.trust (q.direct e.from e.to);
  }

  unfoldable pub push : QueueItem → GraphEdge → List QueueItem → List QueueItem
  push item e rest =
      if ltb (length item.path) (q.max_depth + 1) then next_item item e ∷ rest else rest

  -- The inner loop over the edges.
  unfoldable pub scan : QueueItem → List GraphEdge → Best → Round
  scan item [] best = record { best = best; pushed = [] }
  scan item (e ∷ edges) best =
      let arrives = e.to == q.target in
      let rest = scan item edges (if leaves item e && arrives then better item e best else best) in
      record rest {
        pushed = if leaves item e && not arrives then push item e rest.pushed else rest.pushed;
      }

  abbrev pub round : List GraphEdge → QueueItem → Best → Round
  round edges item best =
      if ltb (q.max_depth + 1) (length item.path)
      then record { best = best; pushed = [] }
      else scan item edges best

  -- `none` is out of fuel.
  unfoldable pub search : List GraphEdge → ℕ → List QueueItem → Best → Option Best
  search edges fuel [] best = some best
  search edges zero (item ∷ queue) best = none
  search edges (suc fuel) (item ∷ queue) best =
      let done = round edges item best in search edges fuel (queue ++ done.pushed) done.best

-- How many items an item with so many hops left leads to, itself included.
unfoldable pub visits : ℕ → ℕ → ℕ
visits edges zero = 1
visits edges (suc hops) = 1 + edges * visits edges hops
