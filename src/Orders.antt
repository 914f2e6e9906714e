-- ===== src/Orders.antt =====
-- Orders on the command line: the tracked orders of bin/atel.mjs, the cancellation of
-- bin/order-cancel-helpers.mjs, and the actions that bin/notification-action-helpers.mjs runs by itself. Texts
-- have no spaces at their ends and statuses are in small letters, so trimming and lowering are left out.
pub mod Tracking
pub mod Cancel
pub mod Actions
use atel_sdk.Base.{
  ℕ, zero, suc, ◌+◌, ◌-◌, ◌≤◌, ◌<◌, String, Bool, true, false, not, ◌&&◌, ◌||◌, Option, none, some,
  List, [], ◌∷◌, ◌++◌, filter, some_of, find, is_some, includes, eqb, ltb, leb, truthy, concat,
  ◌==◌, if◌then◌else◌,
}

-- An entry of the file that has an order; the others are dropped when the file is written.
pub record TrackedOrder : Type 0 where
  pub order_id : String
  pub role : String
  pub updated_at : ℕ

abbrev pub is_order : String → TrackedOrder → Bool
is_order order_id o = o.order_id == order_id

-- The first entry of the order, with its new role.
unfoldable pub set_role : ℕ → String → String → List TrackedOrder → List TrackedOrder
set_role now order_id role [] = []
set_role now order_id role (o ∷ orders) =
    if is_order order_id o
    then record o { role = role; updated_at = now } ∷ orders
    else o ∷ set_role now order_id role orders

unfoldable pub track_order : ℕ → String → String → List TrackedOrder → List TrackedOrder
track_order now order_id role orders =
    let kept = filter (λ o. truthy o.order_id) orders in
    if not (truthy order_id) || not (truthy role)
    then orders
    else if some_of (is_order order_id) kept
    then set_role now order_id role kept
    else kept ++ record { order_id = order_id; role = role; updated_at = now } ∷ []

unfoldable pub untrack_order : String → List TrackedOrder → List TrackedOrder
untrack_order order_id orders =
    if not (truthy order_id) then orders else filter (λ o. not (is_order order_id o)) orders

-- What the names of each field hold; `none` is a missing or empty one.
pub record OrderInfo : Type 0 where
  pub order_id : List (Option String)
  pub status : List (Option String)
  pub requester_did : List (Option String)
  pub executor_did : List (Option String)

-- `a || b || ''`
abbrev pub first_text : List (Option String) → String
first_text [] = ""
first_text (none ∷ rest) = first_text rest
first_text (some s ∷ rest) = if truthy s then s else first_text rest

pub record OrderCancelContext : Type 0 where
  pub order_id : String
  pub order_status : String
  pub requester_did : String
  pub executor_did : String

unfoldable pub normalize_order_cancel_context : OrderInfo → OrderCancelContext
normalize_order_cancel_context i = record {
  order_id = first_text i.order_id;
  order_status = first_text i.status;
  requester_did = first_text i.requester_did;
  executor_did = first_text i.executor_did;
}

pub data CancelCode : Type 0 where
  missing_order_id missing_status terminal_status missing_identity missing_requester not_requester :
      CancelCode

pub record Preflight : Type 0 where
  pub code : Option CancelCode
  pub context : OrderCancelContext
  pub is_requester : Bool
  pub is_executor : Bool
  pub terminal : Bool

abbrev pub terminal_order_statuses : List String
terminal_order_statuses = "cancelled" ∷ "settled" ∷ "rejected" ∷ "expired" ∷ []

-- `did && current ? did === current : false`
abbrev pub is_current : String → String → Bool
is_current did current = truthy did && truthy current && did == current

unfoldable pub cancel_code : OrderCancelContext → String → Option CancelCode
cancel_code c current =
    if not (truthy c.order_id)
    then some missing_order_id
    else if not (truthy c.order_status)
    then some missing_status
    else if includes terminal_order_statuses c.order_status
    then some terminal_status
    else if not (truthy current)
    then some missing_identity
    else if not (truthy c.requester_did)
    then some missing_requester
    else if not (is_current c.requester_did current)
    then some not_requester
    else none

abbrev pub is_terminal : Option CancelCode → Bool
is_terminal (some terminal_status) = true
is_terminal _ = false

-- `none` is ok
unfoldable pub preflight_order_cancel : OrderInfo → String → Preflight
preflight_order_cancel info current =
    let c = normalize_order_cancel_context info in
    record {
      code = cancel_code c current;
      context = c;
      is_requester = is_current c.requester_did current;
      is_executor = is_current c.executor_did current;
      terminal = is_terminal (cancel_code c current);
    }

pub record CancelArgs : Type 0 where
  pub dry_run : Bool
  -- the parts that are joined by spaces
  pub reason : List String

unfoldable pub parse_order_cancel_args : List String → CancelArgs
parse_order_cancel_args [] = record { dry_run = false; reason = [] }
parse_order_cancel_args (arg ∷ args) =
    let rest = parse_order_cancel_args args in
    if arg == "--dry-run"
    then record rest { dry_run = true }
    else if truthy arg
    then record rest { reason = arg ∷ rest.reason }
    else rest
