-- ===== src/Rollback/Order.antt =====
-- The order and the effect of a rollback of src/rollback/index.ts.
use atel_sdk.Base.{
  ℕ, suc, ◌+◌, String, ◌≡◌, refl, sym, ◌∙◌, ap, List, [], ◌∷◌, ◌++◌, reverse, filter, length, arith,
  if◌then◌else◌, Option-cases, inl, inr,
}
use atel_sdk.Rollback.{
  CompensationAction, ActionStatus, pending, completed, failed, is_pending, Progress, round,
  run_all, rollback,
}

module _ (World : Type 0) where
  -- An action undoes its part of the world while it is pending.
  abbrev pub undo_status : CompensationAction World → ActionStatus → World → World
  undo_status a pending w = (a.execute w).1
  undo_status a completed w = w
  undo_status a failed w = w

  -- The last registered first.
  abbrev pub undo_all : List (CompensationAction World) → World → World
  undo_all [] w = w
  undo_all (a ∷ actions) w = undo_status a a.status (undo_all actions w)

  round-world :
      (stamp : String → String) (a : CompensationAction World) (status : ActionStatus) (w : World)
      (rest : World → Progress World)
      → (round World stamp a status w rest).world ≡ (rest (undo_status a status w)).world
  round-world stamp a pending w rest = refl
  round-world stamp a completed w rest = refl
  round-world stamp a failed w rest = refl

  run_all-world :
      (stamp : String → String) (xs : List (CompensationAction World))
      (a : CompensationAction World) (w : World)
      → (run_all World stamp (xs ++ a ∷ []) w).world
        ≡ undo_status a a.status (run_all World stamp xs w).world
  unfolding run_all
  run_all-world stamp [] a w = round-world stamp a a.status w _
  run_all-world stamp (x ∷ xs) a w =
      round-world stamp x x.status w (λ v. run_all World stamp (xs ++ a ∷ []) v)
      ∙ run_all-world stamp xs a (undo_status x x.status w)
      ∙ ap (undo_status a a.status)
          (sym (round-world stamp x x.status w (λ v. run_all World stamp xs v)))

  reversed-world :
      (stamp : String → String) (actions : List (CompensationAction World)) (w : World)
      → (run_all World stamp (reverse actions) w).world ≡ undo_all actions w
  reversed-world stamp [] w = unfold run_all in refl
  reversed-world stamp (a ∷ actions) w =
      run_all-world stamp (reverse actions) a w
      ∙ ap (undo_status a a.status) (reversed-world stamp actions w)

  abbrev pub pending_count : List (CompensationAction World) → ℕ
  pending_count actions = length (filter (λ a. is_pending a.status) actions)

  round-counts :
      (stamp : String → String) (a : CompensationAction World) (status : ActionStatus) (w : World)
      (rest : World → Progress World) (n : ℕ)
      → a.status ≡ status
      → ((v : World)
          → ((rest v).succeeded + (rest v).failed ≡ n) × (pending_count (rest v).actions ≡ 0))
      → let r = round World stamp a status w rest in
        (r.succeeded + r.failed ≡ (if is_pending status then suc n else n))
        × (pending_count r.actions ≡ 0)
  round-counts stamp a pending w rest n e h = elim (Option-cases (a.execute w).0) [
    | inl fine ↦ ground (arith, fine, h (a.execute w).1)
    | inr (message, threw) ↦ ground (arith, threw, h (a.execute w).1)
  ]
  round-counts stamp a completed w rest n e h = ground (arith, e, h w)
  round-counts stamp a failed w rest n e h = ground (arith, e, h w)

  run_all-counts :
      (stamp : String → String) (actions : List (CompensationAction World)) (w : World)
      → let r = run_all World stamp actions w in
        (r.succeeded + r.failed ≡ pending_count actions) × (pending_count r.actions ≡ 0)
  unfolding run_all
  run_all-counts stamp [] w = (omega arith, refl)
  run_all-counts stamp (a ∷ actions) w =
      let (total, none_left) =
        round-counts stamp a a.status w (λ v. run_all World stamp actions v) (pending_count actions)
          refl (run_all-counts stamp actions) in
      (total ∙ ground arith, none_left)

  pending_count-append :
      (xs : List (CompensationAction World)) (a : CompensationAction World)
      → pending_count (xs ++ a ∷ []) ≡ pending_count (a ∷ xs)
  pending_count-append [] a = refl
  pending_count-append (x ∷ xs) a = ground (arith, pending_count-append xs a)

  pending_count-reverse :
      (actions : List (CompensationAction World))
      → pending_count (reverse actions) ≡ pending_count actions
  pending_count-reverse [] = refl
  pending_count-reverse (a ∷ actions) =
      pending_count-append (reverse actions) a ∙ ground (arith, pending_count-reverse actions)

  -- A rollback undoes the pending actions, the last registered first and each once, whether or not
  -- others throw; it reports as many as were pending, and leaves none pending.
  pub rollback-undo_all :
      (stamp : String → String) (actions : List (CompensationAction World)) (w : World)
      → let r = rollback World stamp actions w in
        (r.1 ≡ undo_all actions w)
        × (r.0.total ≡ pending_count actions)
        × (r.0.succeeded + r.0.failed ≡ r.0.total)
        × (pending_count r.0.actions ≡ 0)
  unfolding rollback
  rollback-undo_all stamp actions w =
      let (total, none_left) = run_all-counts stamp (reverse actions) w in
      (
        reversed-world stamp actions w,
        total ∙ pending_count-reverse actions,
        refl,
        pending_count-reverse (run_all World stamp (reverse actions) w).actions ∙ none_left,
      )
