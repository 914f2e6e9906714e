-- ===== src/Gateway.antt =====
-- src/gateway/index.ts: the policy of a gateway over a PolicyEngine, and the data of calls. A handler
-- returns a value or the message of its throw. Left out: a gateway with an identity of its own, whose
-- signatures go into the payloads, other policy engines, and the HTTP tools.
pub mod Tools
pub mod Calls
use Prim.Native.Char.{Char, code}
use atel_sdk.Base.{
  ℕ, zero, suc, ◌+◌, String, Bool, true, false, Option, none, some, List, [], ◌∷◌, ◌++◌, Result, ok,
  err, Map, lookup, insert, is_some, concat, eqb, starts_with, truthy, ◌==◌, if◌then◌else◌, map_err,
}
use atel_sdk.Json.{Value, str, num, obj, end, field, sorted_stringify}
use atel_sdk.Identity.{Host}
use atel_sdk.Schema.{RiskLevel, low, medium, high, critical}
use atel_sdk.Policy.{
  ProposedAction, PolicyDecision, PolicyEngine, PolicyError, allow, deny, needs_confirm, evaluate,
  record_call,
}
use atel_sdk.Trace.{Trace, TraceEventType, TraceError, TraceEvent, tool_call, tool_result, append}

abbrev pub drop : ℕ → String → String
drop zero s = s
drop (suc n) String.[] = String.[]
drop (suc n) (String.◌∷◌ c s) = drop n s

-- The first scope of data, without its prefix.
unfoldable pub extract_data_scope : List String → String
extract_data_scope [] = "*"
extract_data_scope (scope ∷ scopes) =
    let rest = extract_data_scope scopes in if starts_with scope "data:" then drop 5 scope else rest

-- isRiskLevel, with the level
unfoldable pub risk_of_text : String → Option RiskLevel
risk_of_text s =
    if s == "low"
    then some low
    else if s == "medium"
    then some medium
    else if s == "high"
    then some high
    else if s == "critical"
    then some critical
    else none

abbrev pub risk_or_low : Option RiskLevel → RiskLevel
risk_or_low none = low
risk_or_low (some r) = r

abbrev pub text_or : Option String → String → String
text_or none fallback = fallback
text_or (some s) fallback = s

-- An allowed action is recorded.
abbrev pub record_if_allowed :
    PolicyDecision
    → PolicyEngine
    → Result PolicyError PolicyEngine
    → Result PolicyError (PolicyDecision × PolicyEngine)
record_if_allowed allow engine (ok recorded) = ok (allow, recorded)
record_if_allowed allow engine (err e) = err e
record_if_allowed deny engine recorded = ok (deny, engine)
record_if_allowed needs_confirm engine recorded = ok (needs_confirm, engine)

-- The adapter's `evaluate`, with the context's scope and the text of its risk level.
unfoldable pub evaluate_call :
    ℕ
    → Option String
    → String
    → String
    → Option String
    → String
    → PolicyEngine
    → Result PolicyError (PolicyDecision × PolicyEngine)
evaluate_call now default_scope type resource data_scope risk engine =
    let action : ProposedAction = record {
      tool = type;
      method = resource;
      data_scope =
          text_or data_scope (text_or default_scope (extract_data_scope engine.token.scopes));
    } in
    record_if_allowed (evaluate now action (risk_or_low (risk_of_text risk)) engine) engine
      (record_call engine)

-- What stands before the first dot, and what stands after it ("" without a dot).
unfoldable pub cut_at_dot : String → String × String
cut_at_dot String.[] = ("", "")
cut_at_dot (String.◌∷◌ c s) =
    let rest = cut_at_dot s in if eqb (code c) b'.' then ("", s) else (String.◌∷◌ c rest.0, rest.1)

-- `parts.slice(1).join('.') || '*'`
unfoldable pub resource_of : String → String
resource_of tool = let rest = (cut_at_dot tool).1 in if truthy rest then rest else "*"

pub data CallStatus : Type 0 where
  call_ok call_error call_timeout : CallStatus

abbrev pub status_text : CallStatus → String
status_text call_ok = "ok"
status_text call_error = "error"
status_text call_timeout = "timeout"

pub record CallLogEntry : Type 0 where
  pub tool : String
  pub input_hash : String
  pub output_hash : String
  pub status : CallStatus
  pub duration_ms : ℕ
  pub timestamp : String

pub record ToolCallResult : Type 0 where
  pub output : Value
  pub status : CallStatus
  pub duration_ms : ℕ
  pub input_hash : String
  pub output_hash : String

pub record ToolCallRequest : Type 0 where
  pub tool : String
  pub input : Value
  pub risk_level : Option String
  pub data_scope : Option String

pub data GatewayError : Type 0 where
  tool_not_found unauthorized confirmation_required already_registered : String → GatewayError
  policy_error : PolicyError → GatewayError
  trace_error : TraceError → GatewayError

-- The times one call reads: the seconds for the policy, and the texts for events and the log.
pub record CallClock : Type 0 where
  pub now : ℕ
  pub call_ts : String
  pub call_later : String
  pub result_ts : String
  pub result_later : String
  pub log_ts : String
  pub duration_ms : ℕ

abbrev pub Handler : Type 0
Handler = Value → Result String Value

-- What the `try` around a handler makes of it.
abbrev pub handled : Result String Value → CallStatus × Value
handled (ok output) = (call_ok, output)
handled (err message) = (call_error, obj (field "error" (str message) end))
