-- ===== src/Graph/Queries.antt =====
-- The queries of src/graph/index.ts: indirect and composite trust, the strongest path, reputations, and the
-- detection of inconsistent behaviour.
use atel_sdk.Base.{
  ℕ, ◌+◌, ◌-◌, ◌*◌, String, Bool, false, ◌&&◌, Option, none, some, List, [], ◌∷◌, Map, insert,
  filter, length, eqb, ltb, ◌==◌, concat, if◌then◌else◌,
}
use atel_sdk.Graph.{GraphEdge, TrustGraph, edge_list, direct_trust}
use atel_sdk.Graph.Fractions.{Fraction, den, nought, ratio, times, plus, above}
use atel_sdk.Graph.Search.{Query, Best, no_path, first_item, search, visits}

pub data Source : Type 0 where
  direct indirect composite : Source

pub record TrustResult : Type 0 where
  pub trust_score : Fraction
  pub confidence : Fraction
  pub source : Source
  pub path : Option (List String)
  pub direct_part : Option Fraction
  pub indirect_part : Option Fraction
  pub reputation_bonus : Option Fraction

abbrev pub best_or_none : Option Best → Best
best_or_none none = no_path
best_or_none (some b) = b

abbrev pub path_of : List String → Option (List String)
path_of [] = none
path_of (x ∷ xs) = some (x ∷ xs)

abbrev pub sum_by {ℓ} : {A : Type ℓ} → (A → Fraction) → List A → Fraction
sum_by f [] = nought
sum_by f (x ∷ xs) = plus (f x) (sum_by f xs)

abbrev pub count_by {ℓ} : {A : Type ℓ} → (A → ℕ) → List A → ℕ
count_by f [] = 0
count_by f (x ∷ xs) = f x + count_by f xs

abbrev pub larger : Fraction → Fraction → Fraction
larger a b = if above b a then b else a

abbrev pub smaller : Fraction → Fraction → Fraction
smaller a b = if above b a then a else b

abbrev pub is_nought : Fraction → Bool
is_nought f = eqb f.num 0

abbrev pub path_or_none : Best → Option Best
path_or_none b = elim b.path [ [] ↦ none | _ ∷ _ ↦ some b ]

-- The weights of all edges: the successful over the total.
unfoldable pub global_success_rate : TrustGraph → Fraction
global_success_rate g =
    let total = count_by (λ e. e.total_weight) (edge_list g) in
    if ltb 0 total then ratio (count_by (λ e. e.successful_weight) (edge_list g)) total else nought

module _ (recency : ℕ → ℕ → Fraction) where
  abbrev pub query : ℕ → TrustGraph → String → String → ℕ → ℕ → Query
  query now g target scene shortest max_depth = record {
    direct = λ a b. (direct_trust recency now g a b scene).0;
    scene = scene;
    target = target;
    shortest = shortest;
    max_depth = max_depth;
  }

  -- The search from the first item, on fuel that is enough.
  unfoldable pub best_path : ℕ → TrustGraph → String → String → String → ℕ → ℕ → Option Best
  best_path now g from to scene shortest max_depth =
      search (query now g to scene shortest max_depth) (edge_list g)
        (visits (length (edge_list g)) max_depth) (first_item from ∷ []) no_path

  unfoldable pub indirect_trust : ℕ → TrustGraph → String → String → String → ℕ → TrustResult
  indirect_trust now g from to scene max_depth =
      let best =
        if from == to then no_path else best_or_none (best_path now g from to scene 2 max_depth) in
      record {
        trust_score = best.trust;
        confidence = if is_nought best.trust then nought else ratio 1 2;
        source = indirect;
        path = path_of best.path;
        direct_part = none;
        indirect_part = some best.trust;
        reputation_bonus = none;
      }

  unfoldable pub strongest_path : ℕ → TrustGraph → String → String → String → Option Best
  strongest_path now g from to scene =
      if from == to then none else path_or_none (best_or_none (best_path now g from to scene 1 3))

  unfoldable pub composite_trust : ℕ → TrustGraph → String → String → String → TrustResult
  composite_trust now g from to scene =
      let d = direct_trust recency now g from to scene in
      let i = indirect_trust now g from to scene 3 in
      let bonus = times (global_success_rate g) (ratio 1 2) in
      let alpha = if is_nought d.0 then nought else ratio 6 10 in
      let beta = if is_nought d.0 then ratio 9 10 else ratio 3 10 in
      record {
        trust_score =
            plus (plus (times alpha d.0) (times beta i.trust_score)) (times (ratio 1 10) bonus);
        confidence = larger d.1 i.confidence;
        source = composite;
        path = i.path;
        direct_part = some d.0;
        indirect_part = some i.trust_score;
        reputation_bonus = some bonus;
      }

  unfoldable pub scene_reputation : ℕ → TrustGraph → String → String → Fraction
  scene_reputation now g agent_id scene =
      let incoming = filter (λ e. e.to == agent_id && e.scene == scene) (edge_list g) in
      if eqb (length incoming) 0
      then nought
      else times (sum_by (λ e. (direct_trust recency now g e.from e.to scene).0) incoming)
          (ratio 1 (length incoming))

pub record Behaviour : Type 0 where
  -- the score is 1 less this spread
  pub spread : Fraction
  pub suspicious : Bool
  pub details : Map Fraction

-- The rates by partner and scene.
unfoldable pub success_rates : String → List GraphEdge → Map Fraction → Map Fraction
success_rates agent_id [] details = details
success_rates agent_id (e ∷ edges) details = success_rates agent_id edges (
    if e.from == agent_id && ltb 0 e.total_tasks
    then insert (concat e.to (concat ":" e.scene)) (ratio e.successful_tasks e.total_tasks) details
    else details)

abbrev pub largest_of : Map Fraction → Fraction → Fraction
largest_of [] f = f
largest_of ((k, g) ∷ details) f = largest_of details (larger f g)

abbrev pub smallest_of : Map Fraction → Fraction → Fraction
smallest_of [] f = f
smallest_of ((k, g) ∷ details) f = smallest_of details (smaller f g)

-- a - b, where b is not above a
abbrev pub minus : Fraction → Fraction → Fraction
minus a b = ratio (a.num * den b - b.num * den a) (den a * den b)

abbrev pub consistency_of : Map Fraction → Behaviour
consistency_of [] = record { spread = nought; suspicious = false; details = [] }
consistency_of (d ∷ []) = record { spread = nought; suspicious = false; details = d ∷ [] }
consistency_of ((k, f) ∷ d ∷ details) =
    let spread = minus (largest_of (d ∷ details) f) (smallest_of (d ∷ details) f) in
    record {
      spread = spread;
      suspicious = above spread (ratio 3 10);
      details = (k, f) ∷ d ∷ details;
    }

unfoldable pub behavior_consistency_score : String → TrustGraph → Behaviour
behavior_consistency_score agent_id g = consistency_of (success_rates agent_id (edge_list g) [])
