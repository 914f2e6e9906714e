-- ===== src/Tests/Undo.antt =====
-- The theorem on rollbacks at two actions that write their names, of which one throws.
use atel_sdk.Base.{◌+◌, ◌≡◌, refl, String, Option, none, some, List, [], ◌∷◌}
use atel_sdk.Rollback.{CompensationAction, register_compensation, rollback}
use atel_sdk.Rollback.Order.{undo_all, pending_count, rollback-undo_all}

abbrev write : String → Option String → List String → Option String × List String
write name thrown log = (thrown, name ∷ log)

abbrev stamp : String → String
stamp id = "later"

abbrev actions : List (CompensationAction (List String))
actions =
    register_compensation (List String) "2" "now" "second" (write "second" (some "refused"))
      (register_compensation (List String) "1" "now" "first" (write "first" none) [])

last_first : undo_all (List String) actions [] ≡ "first" ∷ "second" ∷ []
unfolding register_compensation
last_first = refl

rollback-undo_all_example :
    let r = rollback (List String) stamp actions [] in
    (r.1 ≡ undo_all (List String) actions [])
    × (r.0.total ≡ pending_count (List String) actions)
    × (r.0.succeeded + r.0.failed ≡ r.0.total)
    × (pending_count (List String) r.0.actions ≡ 0)
rollback-undo_all_example = rollback-undo_all (List String) stamp actions []
