-- ===== src/Negotiation/Offers.antt =====
-- When the handler of src/negotiation/index.ts makes an offer.
use atel_sdk.Base.{ℕ, ◌≤◌, ◌≡◌, true, Option, none, some, includes}
use atel_sdk.Schema.{risk_order}
use atel_sdk.Negotiation.{
  NegotiationRequest, NegotiationPolicy, NegotiationResponse, CostEstimate, Validation,
  offered_terms, estimate,
}

-- The validator, where there is one, finds the request valid.
abbrev pub Validates : Option (NegotiationRequest → Validation) → NegotiationRequest → Type 0
Validates none request = Unit
Validates (some f) request = (f request).valid ≡ true

-- An estimate, where there is one, is within the budget, where there is one.
abbrev pub WithinBudget : Option CostEstimate → Option ℕ → Type 0
WithinBudget none max = Unit
WithinBudget (some c) none = Unit
WithinBudget (some c) (some max) = c.cost ≤ max

pub record CanHandle (policy : NegotiationPolicy) (request : NegotiationRequest) : Type 0 where
  pub supported : includes policy.supported_types request.task_type ≡ true
  pub within_risk : risk_order request.risk_level ≤ risk_order policy.max_risk_level
  pub validated : Validates policy.custom_validator request
  pub affordable : WithinBudget (estimate policy.estimate_cost request) request.max_cost

abbrev pub offer : NegotiationPolicy → NegotiationRequest → NegotiationResponse
offer policy request = record {
  can_handle = true;
  reason = none;
  terms = some (offered_terms policy request);
}
