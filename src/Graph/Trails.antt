-- ===== src/Graph/Trails.antt =====
-- The paths that the searches of src/graph/index.ts look for, and what one round does about them.
use atel_sdk.Base.{
  ◌+◌, String, ◌≡◌, refl, subst, true, false, not, ◌&&◌, ◌⊎◌, inl, inr, List, [], ◌∷◌, ◌++◌, All,
  length, length-append, ltb, leb, ◌==◌, Bool-cases, if-elim, arith, if◌then◌else◌,
}
use atel_sdk.Graph.{GraphEdge}
use atel_sdk.Graph.Fractions.{Fraction, above, above_irrefl, above-asym, not_above_trans}
use atel_sdk.Graph.Search.{
  Query, QueueItem, Best, leaves, better, push, next_item, path_trust, scan,
}

-- The edge is among those.
abbrev pub In : GraphEdge → List GraphEdge → Type 0
In e [] = ⊥
In e (d ∷ edges) = (d ≡ e) ⊎ In e edges

-- A way from an item to the target along edges of the scene, through nodes that are not on the path yet: its
-- trust and its nodes. It has at least `shortest` nodes before the target, and at most the depth's hops.
pub data Trail (q : Query) (edges : List GraphEdge)
    : QueueItem → Fraction → List String → Type 0 where
  arrive :
      (item : QueueItem) (e : GraphEdge)
      → In e edges
      → leaves q item e ≡ true
      → (e.to == q.target) ≡ true
      → leb q.shortest (length item.path) ≡ true
      → Trail q edges item (path_trust q item e) (item.path ++ e.to ∷ [])
  onward :
      (item : QueueItem) (e : GraphEdge) (t : Fraction) (p : List String)
      → In e edges
      → leaves q item e ≡ true
      → (e.to == q.target) ≡ false
      → ltb (length item.path) (q.max_depth + 1) ≡ true
      → Trail q edges (next_item q item e) t p
      → Trail q edges item t p

-- The depth allows the item.
abbrev pub IsWithin : Query → QueueItem → Type 0
IsWithin q item = ltb (q.max_depth + 1) (length item.path) ≡ false

module _ (q : Query) where
  pub next-IsWithin :
      (item : QueueItem) (e : GraphEdge)
      → ltb (length item.path) (q.max_depth + 1) ≡ true
      → IsWithin q (next_item q item e)
  next-IsWithin item e h = ground (arith, h, length-append item.path (e.to ∷ []))

  -- The best path only improves.
  better_improves :
      (item : QueueItem) (e : GraphEdge) (best : Best)
      → above best.trust (better q item e best).trust ≡ false
  unfolding better
  better_improves item e best =
      elim (Bool-cases
        (leb q.shortest (length item.path) && above (path_trust q item e) best.trust)) [
          | inl taken ↦
              rw taken (above-asym (path_trust q item e) best.trust (ground (arith, taken)))
          | inr left ↦ rw left (above_irrefl best.trust)
        ]

  better_arrival :
      (item : QueueItem) (e : GraphEdge) (best : Best)
      → leb q.shortest (length item.path) ≡ true
      → above (path_trust q item e) (better q item e best).trust ≡ false
  unfolding better
  better_arrival item e best long = elim (Bool-cases (above (path_trust q item e) best.trust)) [
    | inl taken ↦ rw (long, taken) (above_irrefl (path_trust q item e))
    | inr left ↦ rw (long, left) left
  ]

  abbrev next_best : QueueItem → GraphEdge → Best → Best
  next_best item e best =
      if leaves q item e && (e.to == q.target) then better q item e best else best

  next_improves :
      (item : QueueItem) (e : GraphEdge) (best : Best)
      → above best.trust (next_best item e best).trust ≡ false
  next_improves item e best =
      if-elim (λ (b : Best). above best.trust b.trust ≡ false)
        (leaves q item e && (e.to == q.target)) (better_improves item e best)
        (above_irrefl best.trust)

  pub scan_improves :
      (item : QueueItem) (edges : List GraphEdge) (best : Best)
      → above best.trust (scan q item edges best).best.trust ≡ false
  unfolding scan
  scan_improves item [] best = above_irrefl best.trust
  scan_improves item (e ∷ edges) best =
      not_above_trans best.trust (next_best item e best).trust
        (scan q item edges (next_best item e best)).best.trust (next_improves item e best)
        (scan_improves item edges (next_best item e best))

  -- Nothing that arrives beats the best path after the scan.
  pub scan_arrivals :
      (item : QueueItem) (edges : List GraphEdge) (best : Best) (e : GraphEdge)
      → In e edges
      → leaves q item e ≡ true
      → (e.to == q.target) ≡ true
      → leb q.shortest (length item.path) ≡ true
      → above (path_trust q item e) (scan q item edges best).best.trust ≡ false
  unfolding scan
  scan_arrivals item [] best e at_e leaving arriving long = elim at_e [ ]
  scan_arrivals item (d ∷ edges) best e (inl same) leaving arriving long =
      let taken : next_best item d best ≡ better q item d best =
        simp (same, leaving, arriving) refl in
      not_above_trans (path_trust q item e) (next_best item d best).trust
        (scan q item edges (next_best item d best)).best.trust
        (rw taken (
          subst (λ x. above (path_trust q item x) (better q item d best).trust ≡ false) same
            (better_arrival item d best long)))
        (scan_improves item edges (next_best item d best))
  scan_arrivals item (d ∷ edges) best e (inr later) leaving arriving long =
      scan_arrivals item edges (next_best item d best) e later leaving arriving long

  -- What an edge adds to the pushed items.
  abbrev pushed_by : QueueItem → GraphEdge → List QueueItem → List QueueItem
  pushed_by item e rest =
      if leaves q item e && not (e.to == q.target) then push q item e rest else rest

  pushed_rest {κ} :
      (P : QueueItem → Type κ) (item : QueueItem) (e : GraphEdge) (rest : List QueueItem)
      → All P (pushed_by item e rest)
      → All P rest
  unfolding push
  pushed_rest P item e rest h = elim (Bool-cases (leaves q item e && not (e.to == q.target))) [
    | inr skipped ↦ rw skipped at h
    | inl taken ↦ elim (Bool-cases (ltb (length item.path) (q.max_depth + 1))) [
      | inl inner ↦ (rw (taken, inner) at h).1
      | inr last ↦ rw (taken, last) at h
    ]
  ]

  pushed_first {κ} :
      (P : QueueItem → Type κ) (item : QueueItem) (e : GraphEdge) (rest : List QueueItem)
      → leaves q item e ≡ true
      → (e.to == q.target) ≡ false
      → ltb (length item.path) (q.max_depth + 1) ≡ true
      → All P (pushed_by item e rest)
      → P (next_item q item e)
  unfolding push
  pushed_first P item e rest leaving passing inner h = (rw (leaving, passing, inner) at h).0

  -- An edge that goes on is pushed.
  pub scan_pushes {κ} :
      (P : QueueItem → Type κ) (item : QueueItem) (edges : List GraphEdge) (best : Best)
      (e : GraphEdge)
      → In e edges
      → leaves q item e ≡ true
      → (e.to == q.target) ≡ false
      → ltb (length item.path) (q.max_depth + 1) ≡ true
      → All P (scan q item edges best).pushed
      → P (next_item q item e)
  unfolding scan
  scan_pushes P item [] best e at_e leaving passing inner h = elim at_e [ ]
  scan_pushes P item (d ∷ edges) best e (inl same) leaving passing inner h =
      pushed_first P item e (scan q item edges (next_best item d best)).pushed leaving passing inner
        (subst (λ x. All P (pushed_by item x (scan q item edges (next_best item d best)).pushed))
          same h)
  scan_pushes P item (d ∷ edges) best e (inr later) leaving passing inner h =
      scan_pushes P item edges (next_best item d best) e later leaving passing inner
        (pushed_rest P item d (scan q item edges (next_best item d best)).pushed h)

  -- Whatever holds of each next item within the depth holds of all that a scan pushes.
  pub scan_pushed {κ} :
      (P : QueueItem → Type κ) (item : QueueItem) (edges : List GraphEdge) (best : Best)
      → ((e : GraphEdge)
          → In e edges
          → leaves q item e ≡ true
          → (e.to == q.target) ≡ false
          → ltb (length item.path) (q.max_depth + 1) ≡ true
          → P (next_item q item e))
      → All P (scan q item edges best).pushed
  unfolding scan push
  scan_pushed P item [] best h = tt
  scan_pushed P item (d ∷ edges) best h =
      let next = next_best item d best in
      let rest = scan_pushed P item edges next (λ e at_e. h e (inr at_e)) in
      elim (Bool-cases (leaves q item d && not (d.to == q.target))) [
        | inr skipped ↦ rw skipped rest
        | inl taken ↦ elim (Bool-cases (ltb (length item.path) (q.max_depth + 1))) [
          | inr last ↦ rw (taken, last) rest
          | inl inner ↦
              rw (taken, inner)
                (h d (inl refl) (ground (arith, taken)) (ground (arith, taken)) inner, rest)
        ]
      ]

  -- The best path after a scan is the one before, or arrives by an edge.
  pub scan_best {κ} :
      (P : Fraction → List String → Type κ) (item : QueueItem) (edges : List GraphEdge)
      (best : Best)
      → P best.trust best.path
      → ((e : GraphEdge)
          → In e edges
          → leaves q item e ≡ true
          → (e.to == q.target) ≡ true
          → leb q.shortest (length item.path) ≡ true
          → P (path_trust q item e) (item.path ++ e.to ∷ []))
      → P (scan q item edges best).best.trust (scan q item edges best).best.path
  unfolding scan better
  scan_best P item [] best start h = start
  scan_best P item (d ∷ edges) best start h =
      let improved = λ (b : Best). P b.trust b.path in
      scan_best P item edges (next_best item d best)
        (elim (Bool-cases (leaves q item d && (d.to == q.target))) [
          | inr skipped ↦ rw skipped start
          | inl taken ↦
              elim (Bool-cases
                (leb q.shortest (length item.path) && above (path_trust q item d) best.trust)) [
                  | inr worse ↦ rw (taken, worse) start
                  | inl good ↦
                      rw (taken, good)
                        (h d (inl refl) (ground (arith, taken)) (ground (arith, taken))
                          (ground (arith, good)))
                ]
        ])
        (λ e at_e. h e (inr at_e))
