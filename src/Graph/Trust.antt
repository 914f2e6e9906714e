-- ===== src/Graph/Trust.antt =====
-- The bounds of the trust of src/graph/index.ts.
use native.Mathlib.Nat.{mul-le-mul_left, mul-le-mul_right}
use atel_sdk.Base.{
  ℕ, zero, suc, ◌+◌, ◌-◌, ◌*◌, ◌≤◌, String, inl, inr, some, List, [], ◌∷◌, All, All-weaken,
  All-lookup, Map, lookup, map, eqb, ltb, length, ◌==◌, Option-cases, Bool-cases, arith,
}
use atel_sdk.Graph.{
  GraphEdge, TrustGraph, edge_list, edge_trust, direct_trust, confidence_of, edge_key,
}
use atel_sdk.Graph.Fractions.{
  Fraction, den, IsUnit, nought, ratio, times, plus, power, times-IsUnit,
}
use atel_sdk.Graph.Search.{Query, QueueItem, path_trust, hop_decay, next_item, first_item}
use atel_sdk.Graph.Queries.{
  indirect_trust, composite_trust, global_success_rate, count_by, is_nought, query,
}
use atel_sdk.Graph.Edges.{IsCounted, Connects, IsSound}
use atel_sdk.Graph.Trails.{Trail, arrive, onward}
use atel_sdk.Graph.Answers.{best_path-found}

confidence-IsUnit : (e : GraphEdge) → IsUnit (confidence_of e)
confidence-IsUnit e = ground arith

-- exp is at most 1 where the last interaction is not in the future.
abbrev pub IsDecay : (ℕ → ℕ → Fraction) → Type 0
IsDecay recency = (now last : ℕ) → last ≤ now → IsUnit (recency now last)

-- No interaction is in the future.
abbrev pub IsPast : ℕ → TrustGraph → Type 0
IsPast now g = All (λ entry. entry.1.last_interaction ≤ now) g.edges

edge_trust-IsUnit :
    (recency : ℕ → ℕ → Fraction) (now : ℕ) (e : GraphEdge)
    → IsDecay recency
    → e.last_interaction ≤ now
    → IsCounted e
    → IsUnit (edge_trust recency now (some e)).0 × IsUnit (edge_trust recency now (some e)).1
edge_trust-IsUnit recency now e decays past h = elim (Bool-cases (eqb e.total_weight 0)) [
  | inl empty ↦ rw empty (omega arith, omega arith)
  | inr weighed ↦ rw weighed (
    times-IsUnit _ _
        (times-IsUnit _ _
          (times-IsUnit (ratio e.successful_weight e.total_weight) _ (omega (arith, h.weights))
            (decays now e.last_interaction past))
          h.consistent)
        (confidence-IsUnit e),
    confidence-IsUnit e,
  )
]

direct_trust-IsUnit :
    (recency : ℕ → ℕ → Fraction) (now : ℕ) (g : TrustGraph) (from to scene : String)
    → IsDecay recency
    → IsPast now g
    → IsSound g
    → IsUnit (direct_trust recency now g from to scene).0
      × IsUnit (direct_trust recency now g from to scene).1
unfolding direct_trust
direct_trust-IsUnit recency now g from to scene decays past sound =
    let key = edge_key from to scene in
    elim (Option-cases (lookup key g.edges)) [
      | inl missing ↦ rw missing (omega arith, omega arith)
      | inr (e, found) ↦ rw found (
          edge_trust-IsUnit recency now e decays
            (All-lookup (λ e. e.last_interaction ≤ now) key e g.edges past found)
            (All-lookup (λ e. IsCounted e × Connects g.nodes e) key e g.edges sound found).0)
    ]

power-IsUnit : (n : ℕ) → IsUnit (power hop_decay n)
power-IsUnit zero = omega arith
power-IsUnit (suc n) = times-IsUnit hop_decay (power hop_decay n) (omega arith) (power-IsUnit n)

trail-IsUnit :
    (q : Query) (edges : List GraphEdge) (item : QueueItem) (t : Fraction) (p : List String)
    → ((a b : String) → IsUnit (q.direct a b))
    → IsUnit item.trust
    → Trail q edges item t p
    → IsUnit t
unfolding path_trust
trail-IsUnit q edges item _ _ direct h (arrive _ e at_e leaving arriving long) =
    times-IsUnit (times item.trust (q.direct e.from e.to)) (power hop_decay (length item.path - 1))
      (times-IsUnit item.trust (q.direct e.from e.to) h (direct e.from e.to))
      (power-IsUnit (length item.path - 1))
trail-IsUnit q edges item t p direct h (onward _ e _ _ at_e leaving passing inner trail) =
    trail-IsUnit q edges (next_item q item e) t p direct
      (times-IsUnit item.trust (q.direct e.from e.to) h (direct e.from e.to)) trail

indirect_trust-IsUnit :
    (recency : ℕ → ℕ → Fraction) (now : ℕ) (g : TrustGraph) (from to scene : String) (max_depth : ℕ)
    → IsDecay recency
    → IsPast now g
    → IsSound g
    → IsUnit (indirect_trust recency now g from to scene max_depth).trust_score
unfolding indirect_trust
indirect_trust-IsUnit recency now g from to scene max_depth decays past sound =
    let (b, found, either, beaten) = best_path-found recency now g from to scene 2 max_depth in
    let unit : IsUnit b.trust = elim either [
      | inl (nothing, path) ↦ rw nothing (omega arith)
      | inr trail ↦
          trail-IsUnit (query recency now g to scene 2 max_depth) (edge_list g) (first_item from)
            b.trust b.path
            (λ a c. (direct_trust-IsUnit recency now g a c scene decays past sound).0) (omega arith)
            trail
    ] in
    elim (Bool-cases (from == to)) [
      | inl same ↦ rw same (omega arith)
      | inr apart ↦ rw (apart, found) unit
    ]

-- At most so many hundredths.
abbrev AtMost : ℕ → Fraction → Type 0
AtMost k f = f.num * 100 ≤ k * den f

AtMost-times : (k : ℕ) (f : Fraction) → IsUnit f → AtMost (10 * k) (times (ratio k 10) f)
unfolding times
AtMost-times k f h = grind (arith, mul-le-mul_left k h)

AtMost-nought : (f : Fraction) → AtMost 0 (times nought f)
unfolding times
AtMost-nought f = omega arith

AtMost-bonus : (f : Fraction) → IsUnit f → AtMost 5 (times (ratio 1 10) (times f (ratio 1 2)))
unfolding times
AtMost-bonus f h = grind (arith, h)

AtMost-plus : (j k : ℕ) (a b : Fraction) → AtMost j a → AtMost k b → AtMost (j + k) (plus a b)
unfolding plus
AtMost-plus j k a b h l = grind (arith, mul-le-mul_right (den b) h, mul-le-mul_right (den a) l)

weights-le :
    (edges : Map GraphEdge)
    → All (λ entry. IsCounted entry.1) edges
    → count_by (λ e. e.successful_weight) (map (λ entry. entry.1) edges)
      ≤ count_by (λ e. e.total_weight) (map (λ entry. entry.1) edges)
weights-le [] h = omega arith
weights-le (entry ∷ edges) h = omega (arith, h.0.weights, weights-le edges h.1)

global-IsUnit : (g : TrustGraph) → IsSound g → IsUnit (global_success_rate g)
unfolding global_success_rate
global-IsUnit g sound =
    let total = count_by (λ e. e.total_weight) (edge_list g) in
    let within = weights-le g.edges (All-weaken (λ entry k. k.0) g.edges sound) in
    elim (Bool-cases (ltb 0 total)) [
      | inl some_weight ↦ rw some_weight (ground (arith, within, some_weight))
      | inr nothing ↦ rw nothing (omega arith)
    ]

-- Where no interaction is in the future and the graph is sound, with exp at most 1 on times that are past:
-- the direct trust, the indirect trust and the composite trust of two agents in a scene are between 0 and 1,
-- and the composite trust is at most 0.95.
pub composite_trust-IsUnit :
    (recency : ℕ → ℕ → Fraction) (now : ℕ) (g : TrustGraph) (from to scene : String)
    → IsDecay recency
    → IsPast now g
    → IsSound g
    → IsUnit (direct_trust recency now g from to scene).0
      × IsUnit (indirect_trust recency now g from to scene 3).trust_score
      × ((composite_trust recency now g from to scene).trust_score.num * 100
          ≤ 95 * den (composite_trust recency now g from to scene).trust_score)
unfolding composite_trust
composite_trust-IsUnit recency now g from to scene decays past sound =
    let d = (direct_trust-IsUnit recency now g from to scene decays past sound).0 in
    let i = indirect_trust-IsUnit recency now g from to scene 3 decays past sound in
    let r = global-IsUnit g sound in
    let direct_part = (direct_trust recency now g from to scene).0 in
    let indirect_part = (indirect_trust recency now g from to scene 3).trust_score in
    let bonus = times (global_success_rate g) (ratio 1 2) in
    let small = AtMost-bonus (global_success_rate g) r in
    (
      d,
      i,
      elim (Bool-cases (is_nought direct_part)) [
        | inl nothing ↦ rw nothing (
            AtMost-plus 90 5 (plus (times nought direct_part) (times (ratio 9 10) indirect_part))
              (times (ratio 1 10) bonus)
              (AtMost-plus 0 90 (times nought direct_part) (times (ratio 9 10) indirect_part)
                (AtMost-nought direct_part) (AtMost-times 9 indirect_part i))
              small)
        | inr something ↦ rw something (
            AtMost-plus 90 5
              (plus (times (ratio 6 10) direct_part) (times (ratio 3 10) indirect_part))
              (times (ratio 1 10) bonus)
              (AtMost-plus 60 30 (times (ratio 6 10) direct_part) (times (ratio 3 10) indirect_part)
                (AtMost-times 6 direct_part d) (AtMost-times 3 indirect_part i))
              small)
      ],
    )
