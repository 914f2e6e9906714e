-- ===== src/Tests/Commands.antt =====
-- The theorems on orders and the Telegram files at small files.
use atel_sdk.Base.{
  ℕ, ◌≡◌, ◌≢◌, refl, true, false, none, some, List, [], ◌∷◌, All, filter, lookup, arith,
}
use atel_sdk.Orders.{OrderInfo}
use atel_sdk.Orders.Tracking.{Use, track, untrack, use_all, role_of, role_after, use_all_refines}
use atel_sdk.Orders.Actions.{
  RecommendedAction, ActionPolicy, amount, nan, explain_direct_execution_skip,
  get_direct_executable_actions, is_cli_action, no_reason-accepts,
}
use atel_sdk.Notify.{acquire_telegram_inbound_leader}
use atel_sdk.Notify.Lease.{Attempt, winners, acquire_telegram_inbound_leader-excludes}

abbrev commands : List Use
commands =
    track 1 "o1" "requester" ∷ track 2 "o2" "executor" ∷ track 3 "o1" "executor" ∷ untrack "o2" ∷ []

use_all_refines_example : role_of "o1" (use_all commands []) ≡ role_after commands "o1" none
use_all_refines_example = use_all_refines commands "o1" [] refl

abbrev info : OrderInfo
info = record {
  order_id = some "" ∷ some "o1" ∷ [];
  status = some "created" ∷ [];
  requester_did = none ∷ some "alice" ∷ [];
  executor_did = [];
}

abbrev accept : RecommendedAction
accept = record { type = "cli"; action = "accept"; command = some ("atel" ∷ "accept" ∷ []) }

abbrev policy : ActionPolicy
policy = record {
  task_mode_auto = false;
  auto_accept_platform = false;
  accept_orders = true;
  accept_max_amount = amount 10;
}

no_reason : explain_direct_execution_skip "order_created" (accept ∷ []) (amount 10) policy ≡ none
unfolding explain_direct_execution_skip
no_reason = refl

-- A price that is not a number is neither accepted nor explained.
no_number :
    (explain_direct_execution_skip "order_created" (accept ∷ []) nan policy ≡ none)
    × (get_direct_executable_actions "order_created" (accept ∷ []) nan policy ≡ [])
unfolding explain_direct_execution_skip get_direct_executable_actions
no_number = (refl, refl)

amount-ne-nan : (n : ℕ) → amount n ≢ nan
amount-ne-nan n h = cc

no_reason-accepts_example :
    (get_direct_executable_actions "order_created" (accept ∷ []) (amount 10) policy
      ≡ filter (is_cli_action "accept") (accept ∷ []))
    × (filter (is_cli_action "accept") (accept ∷ []) ≢ [])
no_reason-accepts_example =
    no_reason-accepts (accept ∷ []) (amount 10) policy (amount-ne-nan 10) (amount-ne-nan 10)
      no_reason

abbrev attempts : List Attempt
attempts =
    record { time = 20; did = "bob"; key = "bot:chat" }
    ∷ record { time = 21; did = "alice"; key = "bot:chat" }
    ∷ record { time = 9000; did = "bob"; key = "bot:chat" }
    ∷ []

acquires : (acquire_telegram_inbound_leader 10 "alice" "bot:chat" []).0.acquired ≡ true
unfolding acquire_telegram_inbound_leader lookup
acquires = refl

acquire_telegram_inbound_leader-excludes_example :
    All
      (λ w. w ≡ "alice")
      (winners "bot:chat" attempts (acquire_telegram_inbound_leader 10 "alice" "bot:chat" []).1)
acquire_telegram_inbound_leader-excludes_example =
    acquire_telegram_inbound_leader-excludes 10 "alice" "bot:chat" [] attempts refl acquires
      ((omega arith, omega arith), ((omega arith, omega arith), ((omega arith, omega arith), tt)))
