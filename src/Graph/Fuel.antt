-- ===== src/Graph/Fuel.antt =====
-- The fuel of the searches of src/graph/index.ts.
use atel_sdk.Base.{
  ℕ, zero, suc, ◌+◌, ◌-◌, ◌*◌, ◌≤◌, ◌≡◌, refl, false, not, ◌&&◌, some, List, [], ◌∷◌, ◌++◌, length,
  length-append, ltb, ◌==◌, Bool-cases, if-elim, inl, inr, arith, if◌then◌else◌,
}
use atel_sdk.Graph.{GraphEdge}
use atel_sdk.Graph.Search.{
  Query, QueueItem, Best, Round, leaves, better, push, next_item, scan, round, search, visits,
}

module _ (q : Query) where
  -- The hops that an item has left.
  abbrev hops_left : QueueItem → ℕ
  hops_left item = q.max_depth + 1 - length item.path

  abbrev pub work : ℕ → List QueueItem → ℕ
  work edges [] = 0
  work edges (item ∷ queue) = visits edges (hops_left item) + work edges queue

  work-append : (n : ℕ) (xs ys : List QueueItem) → work n (xs ++ ys) ≡ work n xs + work n ys
  work-append n [] ys = omega arith
  work-append n (x ∷ xs) ys = omega (arith, work-append n xs ys)

  visits-pos : (n k : ℕ) → 1 ≤ visits n k
  unfolding visits
  visits-pos n zero = omega arith
  visits-pos n (suc k) = grind arith

  -- What an edge pushes is cheaper by one hop.
  push-work :
      (n left : ℕ) (item : QueueItem) (e : GraphEdge) (rest : List QueueItem)
      → hops_left item ≡ suc left
      → work n (push q item e rest) ≤ visits n left + work n rest
  unfolding push
  push-work n left item e rest h =
      if-elim (λ l. work n l ≤ visits n left + work n rest)
        (ltb (length item.path) (q.max_depth + 1))
        (let same : hops_left (next_item q item e) ≡ left =
            omega (arith, h, length-append item.path (e.to ∷ [])) in
          rw same (omega arith))
        (omega arith)

  -- A round costs at least what it pushes.
  scan-work :
      (n left : ℕ) (item : QueueItem) (edges : List GraphEdge) (best : Best)
      → hops_left item ≡ suc left
      → work n (scan q item edges best).pushed ≤ length edges * visits n left
  unfolding scan
  scan-work n left item [] best h = omega arith
  scan-work n left item (e ∷ edges) best h =
      let next = if leaves q item e && (e.to == q.target) then better q item e best else best in
      let rest = scan-work n left item edges next h in
      if-elim (λ l. work n l ≤ suc (length edges) * visits n left)
        (leaves q item e && not (e.to == q.target))
        (grind (arith, rest, push-work n left item e (scan q item edges next).pushed h))
        (grind (arith, rest))

  -- At its last hop an item pushes nothing.
  scan-last :
      (item : QueueItem) (edges : List GraphEdge) (best : Best)
      → ltb (length item.path) (q.max_depth + 1) ≡ false
      → (scan q item edges best).pushed ≡ []
  unfolding scan push
  scan-last item [] best h = refl
  scan-last item (e ∷ edges) best h =
      let next = if leaves q item e && (e.to == q.target) then better q item e best else best in
      if-elim (λ l. l ≡ []) (leaves q item e && not (e.to == q.target))
        (rw h (scan-last item edges next h)) (scan-last item edges next h)

  last-work :
      (edges : List GraphEdge) (item : QueueItem) (best : Best)
      → ltb (length item.path) (q.max_depth + 1) ≡ false
      → (round q edges item best).pushed ≡ []
  last-work edges item best h =
      if-elim (λ (r : Round). r.pushed ≡ []) (ltb (q.max_depth + 1) (length item.path)) refl
        (scan-last item edges best h)

  round-work :
      (edges : List GraphEdge) (item : QueueItem) (best : Best)
      → 1 + work (length edges) (round q edges item best).pushed
        ≤ visits (length edges) (hops_left item)
  unfolding visits scan
  round-work edges item best = elim (Bool-cases (ltb (length item.path) (q.max_depth + 1))) [
    | inr last ↦ rw (last-work edges item best last) (visits-pos (length edges) (hops_left item))
    | inl inner ↦
        let left : hops_left item ≡ suc (q.max_depth - length item.path) = ground (arith, inner) in
        let within : ltb (q.max_depth + 1) (length item.path) ≡ false = ground (arith, inner) in
        rw (within, left)
          (omega
            (arith, scan-work (length edges) (q.max_depth - length item.path) item edges best left))
  ]

  -- A search ends on as much fuel as its queue needs.
  pub search_ends :
      (edges : List GraphEdge) (fuel : ℕ) (queue : List QueueItem) (best : Best)
      → work (length edges) queue ≤ fuel
      → (found : Best) × (search q edges fuel queue best ≡ some found)
  unfolding search
  search_ends edges fuel [] best h = (best, refl)
  search_ends edges zero (item ∷ queue) best h =
      ground (arith, visits-pos (length edges) (hops_left item), h)
  search_ends edges (suc fuel) (item ∷ queue) best h =
      let done = round q edges item best in
      search_ends edges fuel (queue ++ done.pushed) done.best
        (omega (arith, h, round-work edges item best, work-append (length edges) queue done.pushed))
