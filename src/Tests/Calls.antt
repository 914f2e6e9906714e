-- ===== src/Tests/Calls.antt =====
-- The theorems on calls through the gateway, at a gateway with one tool and two calls left.
use atel_sdk.Base.{◌+◌, ◌≤◌, ◌≡◌, ◌⊎◌, refl, none, some, [], ◌∷◌, ok, err, lookup, insert}
use atel_sdk.Json.{str}
use atel_sdk.Policy.{PolicyEngine, get_remaining_calls, unsigned_token}
use atel_sdk.Schema.{medium}
use atel_sdk.Gateway.{CallClock, Handler, ToolCallRequest, tool_not_found}
use atel_sdk.Gateway.Tools.{ToolGateway, call_tool}
use atel_sdk.Gateway.Calls.{Decided, budget, call_all, call_tool_cases, call_all-budget}
use atel_sdk.Tests.{toy}

abbrev gateway : ToolGateway toy
gateway = record {
  engine = record {
    token = unsigned_token 100 "n" "alice" "bob" ("tool:http" ∷ "data:web" ∷ []) 3 60 medium;
    call_count = 1;
  };
  default_scope = none;
  default_risk = "low";
  tools = insert "http.get" (λ input. ok (str "page")) [];
  call_log = [];
  call_count = 0;
  trace = none;
}

abbrev clock : CallClock
clock = record {
  now = 120;
  call_ts = "t1";
  call_later = "t2";
  result_ts = "t3";
  result_later = "t4";
  log_ts = "t5";
  duration_ms = 7;
}

abbrev request : ToolCallRequest
request = record { tool = "http.get"; input = str "url"; risk_level = none; data_scope = none }

executed : (call_tool toy clock request gateway).1.call_count ≡ 1
unfolding call_tool atel_sdk.Gateway.evaluate_call atel_sdk.Gateway.cut_at_dot
    atel_sdk.Gateway.resource_of atel_sdk.Gateway.extract_data_scope atel_sdk.Gateway.risk_of_text
    atel_sdk.Policy.evaluate atel_sdk.Policy.is_expired atel_sdk.Policy.scope_matches
    atel_sdk.Policy.record_call unsigned_token lookup insert
executed = refl

call_tool_cases_example :
    ((lookup "http.get" gateway.tools ≡ none)
      × (call_tool toy clock request gateway ≡ (err (tool_not_found "http.get"), gateway)))
    ⊎ ((handler : Handler) × (lookup "http.get" gateway.tools ≡ some handler)
        × Decided toy clock request handler gateway (call_tool toy clock request gateway))
call_tool_cases_example = call_tool_cases toy clock request gateway

call_all-budget_example :
    (budget toy (call_all toy ((clock, request) ∷ (clock, request) ∷ []) gateway)
      ≡ budget toy gateway)
    × ((call_all toy ((clock, request) ∷ (clock, request) ∷ []) gateway).call_count
        ≤ gateway.call_count + get_remaining_calls gateway.engine)
call_all-budget_example = call_all-budget toy ((clock, request) ∷ (clock, request) ∷ []) gateway
