-- ===== src/Rollback.antt =====
-- RollbackManager of src/rollback/index.ts. What the compensations act on is the type World, and a
-- compensation returns the message of its throw, if it throws. `stamp` is the time read when the
-- action with an identifier has run.
pub mod Order
use atel_sdk.Base.{
  ℕ, suc, ◌+◌, String, Bool, true, false, Option, none, some, List, [], ◌∷◌, ◌++◌, reverse,
  if◌then◌else◌,
}

pub data ActionStatus : Type 0 where
  pending completed failed : ActionStatus

abbrev pub is_pending : ActionStatus → Bool
is_pending pending = true
is_pending _ = false

module _ (World : Type 0) where
  pub record CompensationAction : Type 0 where
    pub id : String
    pub description : String
    pub execute : World → Option String × World
    pub status : ActionStatus
    pub error : Option String
    pub registered_at : String
    pub executed_at : Option String

  -- The manager's list, after the registration of an action with a drawn identifier.
  unfoldable pub register_compensation :
      String
      → String
      → String
      → (World → Option String × World)
      → List CompensationAction
      → List CompensationAction
  register_compensation id now description execute actions =
      actions
      ++ record {
        id = id;
        description = description;
        execute = execute;
        status = pending;
        error = none;
        registered_at = now;
        executed_at = none;
      }
        ∷ []

  -- The action as the outcome of its run leaves it.
  abbrev pub finish : String → CompensationAction → Option String → CompensationAction
  finish time a none = record a { status = completed; executed_at = some time }
  finish time a (some message) = record a {
    status = failed;
    error = some message;
    executed_at = some time;
  }

  abbrev pub is_none : Option String → Bool
  is_none none = true
  is_none (some message) = false

  -- The loop's variables after a part of the list, with its actions in the order of the loop.
  pub record Progress : Type 0 where
    pub actions : List CompensationAction
    pub succeeded : ℕ
    pub failed : ℕ
    pub world : World

  -- One round of the loop, on an action with its status, before the rest.
  abbrev pub round :
      (String → String) → CompensationAction → ActionStatus → World → (World → Progress) → Progress
  round stamp a completed w rest = let r = rest w in record r { actions = a ∷ r.actions }
  round stamp a failed w rest = let r = rest w in record r { actions = a ∷ r.actions }
  round stamp a pending w rest =
      let outcome = a.execute w in
      let r = rest outcome.1 in
      record {
        actions = finish (stamp a.id) a outcome.0 ∷ r.actions;
        succeeded = if is_none outcome.0 then suc r.succeeded else r.succeeded;
        failed = if is_none outcome.0 then r.failed else suc r.failed;
        world = r.world;
      }

  unfoldable pub run_all : (String → String) → List CompensationAction → World → Progress
  run_all stamp [] w = record { actions = []; succeeded = 0; failed = 0; world = w }
  run_all stamp (a ∷ actions) w = round stamp a a.status w (λ v. run_all stamp actions v)

  pub record RollbackReport : Type 0 where
    pub total : ℕ
    pub succeeded : ℕ
    pub failed : ℕ
    pub actions : List CompensationAction

  -- The report, whose actions are also the manager's list afterwards, and the world.
  unfoldable pub rollback :
      (String → String) → List CompensationAction → World → RollbackReport × World
  rollback stamp actions w =
      let r = run_all stamp (reverse actions) w in
      (
        record {
          total = r.succeeded + r.failed;
          succeeded = r.succeeded;
          failed = r.failed;
          actions = reverse r.actions;
        },
        r.world,
      )
