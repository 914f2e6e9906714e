-- ===== src/Graph/Answers.antt =====
-- What strongestPath and indirectTrust of src/graph/index.ts answer.
use atel_sdk.Base.{
  ℕ, ◌+◌, ◌-◌, String, ◌≡◌, ◌≢◌, refl, ap, subst, false, ◌⊎◌, inl, inr, Option, none, some, List,
  [], ◌∷◌, append-eq-nil, length, ltb, ◌==◌, arith,
}
use atel_sdk.Graph.{GraphEdge, TrustGraph, edge_list}
use atel_sdk.Graph.Fractions.{Fraction, nought, above}
use atel_sdk.Graph.Search.{Query, QueueItem, Best, no_path, first_item, visits}
use atel_sdk.Graph.Queries.{best_path, query, path_of, path_or_none, strongest_path, indirect_trust}
use atel_sdk.Graph.Fuel.{search_ends}
use atel_sdk.Graph.Trails.{Trail, arrive, onward}
use atel_sdk.Graph.Strongest.{search_sound, search_best}

-- A path with its trust that no trail from the agent beats; or none, and no trail has a positive trust.
abbrev pub IsAnswer : Query → List GraphEdge → String → Fraction → Option (List String) → Type 0
IsAnswer q edges from trust none =
    (trust ≡ nought)
    × ((t : Fraction) (p : List String)
        → Trail q edges (first_item from) t p
        → above t nought ≡ false)
IsAnswer q edges from trust (some path) =
    Trail q edges (first_item from) trust path
    × ((t : Fraction) (p : List String)
        → Trail q edges (first_item from) t p
        → above t trust ≡ false)

trail-nonempty :
    (q : Query) (edges : List GraphEdge) (item : QueueItem) (t : Fraction)
    → Trail q edges item t []
    → ⊥
trail-nonempty q edges item t h = nonempty item t [] h refl
  where
    nonempty : (i : QueueItem) (u : Fraction) (p : List String) → Trail q edges i u p → p ≢ []
    nonempty i u p (arrive _ e at_e leaving arriving long) nil =
        let end = (append-eq-nil i.path (e.to ∷ []) nil).1 in cc
    nonempty i u p (onward _ e _ _ at_e leaving passing inner trail) nil = nonempty _ u p trail nil

depth_left : (n : ℕ) → n + 1 - 1 ≡ n
depth_left n = omega arith

module _ (recency : ℕ → ℕ → Fraction) (now : ℕ) (g : TrustGraph) (from to scene : String)
    (shortest max_depth : ℕ) where
  abbrev asked : Query
  asked = query recency now g to scene shortest max_depth

  -- A search ends, with the empty path or a trail, and nothing beats it.
  pub best_path-found :
      (b : Best) × (best_path recency now g from to scene shortest max_depth ≡ some b)
      × (((b.trust ≡ nought) × (b.path ≡ []))
          ⊎ Trail asked (edge_list g) (first_item from) b.trust b.path)
      × ((t : Fraction) (p : List String)
          → Trail asked (edge_list g) (first_item from) t p
          → above t b.trust ≡ false)
  unfolding best_path
  best_path-found =
      let edges = edge_list g in
      let start : QueueItem = first_item from in
      let full = ap (λ n. visits (length edges) n) (depth_left max_depth) in
      let (b, found) =
        search_ends asked edges (visits (length edges) max_depth) (start ∷ []) no_path
          (omega (arith, full)) in
      let within : ltb (max_depth + 1) 1 ≡ false = ground arith in
      let (improved, beaten) =
        search_best asked edges (visits (length edges) max_depth) (start ∷ []) no_path b
          (within, tt) found in
      let sound =
        search_sound asked edges (λ t p. ((t ≡ nought) × (p ≡ [])) ⊎ Trail asked edges start t p)
          (visits (length edges) max_depth) (start ∷ []) no_path b (inl (refl, refl))
          ((within, λ t p trail. inr trail), tt) found in
      (b, found, sound, beaten.0)

  -- What an answer reads off the best path.
  best-IsAnswer :
      (b : Best)
      → ((b.trust ≡ nought) × (b.path ≡ []))
        ⊎ Trail asked (edge_list g) (first_item from) b.trust b.path
      → ((t : Fraction) (p : List String)
          → Trail asked (edge_list g) (first_item from) t p
          → above t b.trust ≡ false)
      → IsAnswer asked (edge_list g) from b.trust (path_of b.path)
  best-IsAnswer b (inl (trust, path)) beaten =
      rw path (trust, λ t p trail. subst (λ u. above t u ≡ false) trust (beaten t p trail))
  best-IsAnswer b (inr trail) beaten = by_path b.path refl
    where
      by_path :
          (p : List String) → b.path ≡ p → IsAnswer asked (edge_list g) from b.trust (path_of p)
      by_path [] e =
          elim (trail-nonempty asked (edge_list g) (first_item from) b.trust (rw e at trail)) [ ]
      by_path (x ∷ xs) e = (rw e at trail, beaten)

-- The searches of both functions end, on fuel that depends on the number of edges and the depth alone.
pub best_path-ends :
    (recency : ℕ → ℕ → Fraction) (now : ℕ) (g : TrustGraph) (from to scene : String)
    (shortest max_depth : ℕ)
    → (b : Best) × (best_path recency now g from to scene shortest max_depth ≡ some b)
best_path-ends recency now g from to scene shortest max_depth =
    let (b, found, sound, beaten) =
      best_path-found recency now g from to scene shortest max_depth in
    (b, found)

-- Between two different agents, the indirect trust is that of a trail of at least two hops which no such trail
-- beats, and its path is the trail's nodes. Without a path it is 0, and no such trail has a positive trust.
pub indirect_trust-IsAnswer :
    (recency : ℕ → ℕ → Fraction) (now : ℕ) (g : TrustGraph) (from to scene : String) (max_depth : ℕ)
    → (from == to) ≡ false
    → IsAnswer
        (query recency now g to scene 2 max_depth)
        (edge_list g)
        from
        (indirect_trust recency now g from to scene max_depth).trust_score
        (indirect_trust recency now g from to scene max_depth).path
unfolding indirect_trust
indirect_trust-IsAnswer recency now g from to scene max_depth apart =
    let (b, found, sound, beaten) = best_path-found recency now g from to scene 2 max_depth in
    rw (apart, found) (best-IsAnswer recency now g from to scene 2 max_depth b sound beaten)

-- The trust and the path of an optional result.
abbrev pub IsStrongest : Query → List GraphEdge → String → Option Best → Type 0
IsStrongest q edges from none = IsAnswer q edges from nought none
IsStrongest q edges from (some b) = IsAnswer q edges from b.trust (some b.path)

path_or_none-IsStrongest :
    (q : Query) (edges : List GraphEdge) (from : String) (b : Best)
    → IsAnswer q edges from b.trust (path_of b.path)
    → IsStrongest q edges from (path_or_none b)
path_or_none-IsStrongest q edges from b h = by_path b.path refl
  where
    by_path :
        (p : List String)
        → b.path ≡ p
        → IsStrongest q edges from (elim p [ [] ↦ none | _ ∷ _ ↦ some b ])
    by_path [] e = let (nothing, beaten) = rw e at h in (refl, beaten)
    by_path (x ∷ xs) e = let kept = rw e at h in (rw e kept.0, kept.1)

-- Between two different agents, the strongest path is a trail which no trail beats; and where there is none,
-- no trail has a positive trust.
pub strongest_path-IsStrongest :
    (recency : ℕ → ℕ → Fraction) (now : ℕ) (g : TrustGraph) (from to scene : String)
    → (from == to) ≡ false
    → IsStrongest
        (query recency now g to scene 1 3)
        (edge_list g)
        from
        (strongest_path recency now g from to scene)
unfolding strongest_path
strongest_path-IsStrongest recency now g from to scene apart =
    let (b, found, sound, beaten) = best_path-found recency now g from to scene 1 3 in
    rw (apart, found)
      (path_or_none-IsStrongest (query recency now g to scene 1 3) (edge_list g) from b
        (best-IsAnswer recency now g from to scene 1 3 b sound beaten))
