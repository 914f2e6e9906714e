-- ===== src/Orders/Cancel.antt =====
-- When an order can be cancelled, by bin/order-cancel-helpers.mjs.
use atel_sdk.Base.{String, ◌≡◌, true, false, includes, truthy}
use atel_sdk.Orders.{OrderCancelContext, terminal_order_statuses}

-- The order is named and has a status that is not final, and the requester is the current agent.
pub record CanCancel (c : OrderCancelContext) (current : String) : Type 0 where
  pub named : truthy c.order_id ≡ true
  pub has_status : truthy c.order_status ≡ true
  pub open_status : includes terminal_order_statuses c.order_status ≡ false
  pub has_identity : truthy current ≡ true
  pub own : c.requester_did ≡ current
