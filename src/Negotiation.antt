-- ===== src/Negotiation.antt =====
-- The negotiation of src/negotiation/index.ts: the handler of an executor; the client is in Client.
-- Costs and durations are natural numbers.
pub mod Client
pub mod Offers
pub mod Best
use atel_sdk.Base.{
  ℕ, suc, String, Bool, true, false, not, Option, none, some, List, [], ◌∷◌, Result, ok, err, ◌>>=◌,
  filter, includes, ltb, leb, is_some, concat, if◌then◌else◌,
}
use atel_sdk.Json.{Value, Fields, str, num, obj, end, field}
use atel_sdk.Schema.{RiskLevel, risk_order}
use atel_sdk.Identity.{Host, IdentityError}
use atel_sdk.Envelope.{Message, create_message}

pub record NegotiationRequest : Type 0 where
  pub task_type : String
  pub risk_level : RiskLevel
  pub constraints : Option Value
  pub max_cost : Option ℕ
  pub deadline : Option String

pub record ExecutionTerms : Type 0 where
  pub estimated_cost : Option ℕ
  pub currency : Option String
  pub estimated_duration_ms : Option ℕ
  pub max_risk_level : RiskLevel
  pub required_scopes : List String
  pub requested_ttl_sec : ℕ
  pub expected_max_calls : ℕ

-- The texts of `reason`.
pub data Reason : Type 0 where
  unsupported_task_type : String → Reason
  risk_exceeds : RiskLevel → RiskLevel → Reason
  validator_reason : String → Reason
  cost_exceeds : ℕ → ℕ → Reason
  request_failed : ℕ → Reason
  thrown : String → Reason

pub record NegotiationResponse : Type 0 where
  pub can_handle : Bool
  pub reason : Option Reason
  pub terms : Option ExecutionTerms

pub record NegotiationResult : Type 0 where
  pub success : Bool
  pub agreed_terms : Option ExecutionTerms
  pub reason : Option Reason
  pub executor_did : String

pub record CostEstimate : Type 0 where
  pub cost : ℕ
  pub currency : String

pub record Validation : Type 0 where
  pub valid : Bool
  pub reason : Option String

-- A function that is not configured is `none`, and so is an estimate of null.
pub record NegotiationPolicy : Type 0 where
  pub supported_types : List String
  pub max_risk_level : RiskLevel
  pub default_scopes : List String
  pub default_ttl_sec : ℕ
  pub default_max_calls : ℕ
  pub estimate_cost : Option (NegotiationRequest → Option CostEstimate)
  pub estimate_duration : Option (NegotiationRequest → Option ℕ)
  pub custom_validator : Option (NegotiationRequest → Validation)

abbrev pub refused : Option Reason → NegotiationResponse
refused reason = record { can_handle = false; reason = reason; terms = none }

abbrev pub validator_text : Option String → Option Reason
validator_text none = none
validator_text (some text) = some (validator_reason text)

-- What a function answers when it is configured.
abbrev pub estimate {ℓ} :
    {A : Type ℓ} → Option (NegotiationRequest → Option A) → NegotiationRequest → Option A
estimate none request = none
estimate (some f) request = f request

-- The validator's refusal.
abbrev pub validate :
    Option (NegotiationRequest → Validation) → NegotiationRequest → Option NegotiationResponse
validate none request = none
validate (some f) request =
    let v = f request in if v.valid then none else some (refused (validator_text v.reason))

abbrev pub over_budget : ℕ → Option ℕ → Option NegotiationResponse
over_budget cost none = none
over_budget cost (some max) =
    if ltb max cost then some (refused (some (cost_exceeds cost max))) else none

abbrev pub budget_refusal : Option CostEstimate → NegotiationRequest → Option NegotiationResponse
budget_refusal none request = none
budget_refusal (some c) request = over_budget c.cost request.max_cost

abbrev pub cost_of : Option CostEstimate → Option ℕ
cost_of none = none
cost_of (some c) = some c.cost

abbrev pub currency_of : Option CostEstimate → Option String
currency_of none = none
currency_of (some c) = some c.currency

unfoldable pub offered_terms : NegotiationPolicy → NegotiationRequest → ExecutionTerms
offered_terms policy request =
    let cost = estimate policy.estimate_cost request in
    record {
      estimated_cost = cost_of cost;
      currency = currency_of cost;
      estimated_duration_ms = estimate policy.estimate_duration request;
      max_risk_level = policy.max_risk_level;
      required_scopes = policy.default_scopes;
      requested_ttl_sec = policy.default_ttl_sec;
      expected_max_calls = policy.default_max_calls;
    }

abbrev pub unless_refused : Option NegotiationResponse → NegotiationResponse → NegotiationResponse
unless_refused none r = r
unless_refused (some refusal) r = refusal

unfoldable pub evaluate : NegotiationPolicy → NegotiationRequest → NegotiationResponse
evaluate policy request =
    if not (includes policy.supported_types request.task_type)
    then refused (some (unsupported_task_type request.task_type))
    else if ltb (risk_order policy.max_risk_level) (risk_order request.risk_level)
    then refused (some (risk_exceeds request.risk_level policy.max_risk_level))
    else unless_refused (validate policy.custom_validator request) (
        unless_refused (budget_refusal (estimate policy.estimate_cost request) request) (record {
          can_handle = true;
          reason = none;
          terms = some (offered_terms policy request);
        }))

abbrev pub risk_value : RiskLevel → Value
risk_value RiskLevel.low = str "low"
risk_value RiskLevel.medium = str "medium"
risk_value RiskLevel.high = str "high"
risk_value RiskLevel.critical = str "critical"

abbrev pub optional_field {ℓ} : {A : Type ℓ} → String → (A → Value) → Option A → Fields → Fields
optional_field name value none rest = rest
optional_field name value (some a) rest = field name (value a) rest

unfoldable pub request_value : NegotiationRequest → Value
request_value r = obj (
    field "taskType" (str r.task_type) (
      field "riskLevel" (risk_value r.risk_level) (
        optional_field "constraints" (λ v. v) r.constraints
          (optional_field "maxCost" num r.max_cost
            (optional_field "deadline" str r.deadline end)))))
