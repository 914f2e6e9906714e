-- ===== src/Graph/Strongest.antt =====
-- The paths that the searches of src/graph/index.ts end with.
use atel_sdk.Base.{
  ℕ, zero, suc, String, ◌≡◌, refl, sym, ap, subst, ◌∙◌, false, some, List, [], ◌∷◌, ◌++◌, All,
  All-append, All-of_append,
}
use atel_sdk.Graph.{GraphEdge}
use atel_sdk.Graph.Fractions.{Fraction, above, above_irrefl, not_above_trans}
use atel_sdk.Graph.Search.{Query, QueueItem, Best, Round, path_trust, round, scan, search}
use atel_sdk.Graph.Trails.{
  Trail, arrive, onward, IsWithin, next-IsWithin, scan_improves, scan_arrivals, scan_pushes,
  scan_pushed, scan_best,
}

module _ (q : Query) (all_edges : List GraphEdge) where
  search_step :
      (fuel : ℕ) (item : QueueItem) (queue : List QueueItem) (best : Best)
      → IsWithin q item
      → search q all_edges (suc fuel) (item ∷ queue) best
        ≡ search q all_edges fuel
            (queue ++ (scan q item all_edges best).pushed)
            (scan q item all_edges best).best
  unfolding search
  search_step fuel item queue best within =
      let scanned : round q all_edges item best ≡ scan q item all_edges best = rw within refl in
      ap (λ (r : Round). search q all_edges fuel (queue ++ r.pushed) r.best) scanned

  -- The depth allows the item, and what holds of its trails.
  abbrev pub IsGood {κ} : (Fraction → List String → Type κ) → QueueItem → Type κ
  IsGood P item =
      IsWithin q item × ((t : Fraction) (p : List String) → Trail q all_edges item t p → P t p)

  next-IsGood {κ} :
      (P : Fraction → List String → Type κ) (item : QueueItem) (best : Best)
      → IsGood P item
      → All (IsGood P) (scan q item all_edges best).pushed
  next-IsGood P item best good =
      scan_pushed q (IsGood P) item all_edges best (λ e at_e leaving passing inner. (
        next-IsWithin q item e inner,
        λ t p trail. good.1 t p (onward item e t p at_e leaving passing inner trail),
      ))

  -- What holds of the best path before, and of each trail of the items, holds of what a search finds.
  pub search_sound {κ} :
      (P : Fraction → List String → Type κ) (fuel : ℕ) (queue : List QueueItem) (best found : Best)
      → P best.trust best.path
      → All (IsGood P) queue
      → search q all_edges fuel queue best ≡ some found
      → P found.trust found.path
  unfolding search
  search_sound P fuel [] best found start good h =
      let same : best ≡ found = cc in subst (λ (b : Best). P b.trust b.path) same start
  search_sound P zero (item ∷ queue) best found start good h = cc
  search_sound P (suc fuel) (item ∷ queue) best found start good h =
      let done = scan q item all_edges best in
      search_sound P fuel (queue ++ done.pushed) done.best found
        (scan_best q P item all_edges best start
          (λ e at_e leaving arriving long. good.0.1 _ _ (arrive item e at_e leaving arriving long)))
        (All-append (IsGood P) queue done.pushed good.1 (next-IsGood P item best good.0))
        (sym (search_step fuel item queue best good.0.0) ∙ h)

  -- No trail of the item is above the trust.
  abbrev pub IsBeaten : Fraction → QueueItem → Type 0
  IsBeaten trust item =
      (t : Fraction) (p : List String) → Trail q all_edges item t p → above t trust ≡ false

  -- A trail beats neither what its item's scan finds nor what its pushed items lead to.
  item-IsBeaten :
      (item : QueueItem) (best : Best) (trust : Fraction)
      → above (scan q item all_edges best).best.trust trust ≡ false
      → All (IsBeaten trust) (scan q item all_edges best).pushed
      → IsBeaten trust item
  item-IsBeaten item best trust improved pushed _ _ (arrive _ e at_e leaving arriving long) =
      not_above_trans (path_trust q item e) (scan q item all_edges best).best.trust trust
        (scan_arrivals q item all_edges best e at_e leaving arriving long) improved
  item-IsBeaten item best trust improved pushed t p
        (onward _ e _ _ at_e leaving passing inner trail) =
      scan_pushes q (IsBeaten trust) item all_edges best e at_e leaving passing inner pushed t p
        trail

  pub search_best :
      (fuel : ℕ) (queue : List QueueItem) (best found : Best)
      → All (IsWithin q) queue
      → search q all_edges fuel queue best ≡ some found
      → (above best.trust found.trust ≡ false) × All (IsBeaten found.trust) queue
  unfolding search
  search_best fuel [] best found within h =
      let same : best ≡ found = cc in
      (subst (λ (b : Best). above best.trust b.trust ≡ false) same (above_irrefl best.trust), tt)
  search_best zero (item ∷ queue) best found within h = cc
  search_best (suc fuel) (item ∷ queue) best found within h =
      let done = scan q item all_edges best in
      let pushed =
        scan_pushed q (IsWithin q) item all_edges best
          (λ e at_e leaving passing inner. next-IsWithin q item e inner) in
      let (improved, beaten) =
        search_best fuel (queue ++ done.pushed) done.best found
          (All-append (IsWithin q) queue done.pushed within.1 pushed)
          (sym (search_step fuel item queue best within.0) ∙ h) in
      let (queued, rest) = All-of_append (IsBeaten found.trust) queue done.pushed beaten in
      (
        not_above_trans best.trust done.best.trust found.trust (scan_improves q item all_edges best)
            improved,
        (item-IsBeaten item best found.trust improved rest, queued),
      )
