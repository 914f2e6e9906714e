-- ===== src/Gateway/Tools.antt =====
-- The class ToolGateway of src/gateway/index.ts: registerTool and callTool.
use atel_sdk.Base.{
  ℕ, ◌+◌, String, Option, none, some, List, [], ◌∷◌, ◌++◌, Result, ok, err, Map, lookup, insert,
  is_some, if◌then◌else◌,
}
use atel_sdk.Json.{Value, str, num, obj, end, field, sorted_stringify}
use atel_sdk.Identity.{Host}
use atel_sdk.Policy.{PolicyDecision, PolicyEngine, PolicyError, allow, deny, needs_confirm}
use atel_sdk.Trace.{Trace, TraceEventType, TraceError, tool_call, tool_result, append}
use atel_sdk.Gateway.{
  CallStatus, status_text, CallLogEntry, ToolCallResult, ToolCallRequest, GatewayError,
  tool_not_found, unauthorized, confirmation_required, already_registered, policy_error,
  trace_error, CallClock, Handler, handled, text_or, evaluate_call, cut_at_dot, resource_of,
}

module _ (host : Host) where
  open host use {sha256}

  unfoldable pub compute_hash : Value → String
  compute_hash data_value = sha256 (sorted_stringify data_value)

  pub record ToolGateway : Type 0 where
    pub engine : PolicyEngine
    pub default_scope : Option String
    pub default_risk : String
    pub tools : Map Handler
    pub call_log : List CallLogEntry
    pub call_count : ℕ
    pub trace : Option (Trace host)

  abbrev pub Called : Type 0
  Called = Result GatewayError ToolCallResult × ToolGateway

  unfoldable pub register_tool :
      String → Handler → ToolGateway → Result GatewayError (Unit {0}) × ToolGateway
  register_tool name handler g =
      if is_some (lookup name g.tools)
      then (err (already_registered name), g)
      else (ok tt, record g { tools = insert name handler g.tools })

  -- An event goes into the trace, if there is one. An append that throws may still change it.
  abbrev pub append_event :
      String
      → String
      → TraceEventType
      → Value
      → Option (Trace host)
      → Result TraceError (Unit {0}) × Option (Trace host)
  append_event ts later type payload none = (ok tt, none)
  append_event ts later type payload (some t) =
      let r = append host ts later type payload t in
      (elim r.0 [ ok e ↦ ok tt | err e ↦ err e ], some r.1)

  -- The entry of the log, and the result.
  abbrev pub log_call :
      CallClock
      → ToolCallRequest
      → CallStatus
      → Value
      → ToolGateway
      → Result TraceError (Unit {0}) × Option (Trace host)
      → Called
  log_call clock request status output g (err e, trace) =
      (err (trace_error e), record g { trace = trace })
  log_call clock request status output g (ok _, trace) =
      let output_hash = compute_hash output in
      let input_hash = compute_hash request.input in
      (
        ok (record {
          output = output;
          status = status;
          duration_ms = clock.duration_ms;
          input_hash = input_hash;
          output_hash = output_hash;
        }),
        record g {
          trace = trace;
          call_log =
              g.call_log
              ++ record {
                tool = request.tool;
                input_hash = input_hash;
                output_hash = output_hash;
                status = status;
                duration_ms = clock.duration_ms;
                timestamp = clock.log_ts;
              }
                ∷ [];
        },
      )

  -- From the handler's outcome on: the event TOOL_RESULT.
  abbrev pub finish_call : CallClock → ToolCallRequest → CallStatus × Value → ToolGateway → Called
  finish_call clock request (status, output) g = log_call clock request status output g (
      append_event clock.result_ts clock.result_later tool_result
        (obj (
          field "tool" (str request.tool) (
            field "output_hash" (str (compute_hash output)) (
              field "status" (str (status_text status))
                (field "duration_ms" (num clock.duration_ms) end)))))
        g.trace)

  -- The handler runs unless the trace refused the event TOOL_CALL.
  abbrev pub handle_call :
      CallClock
      → ToolCallRequest
      → Handler
      → ToolGateway
      → Result TraceError (Unit {0}) × Option (Trace host)
      → Called
  handle_call clock request handler g (err e, trace) =
      (err (trace_error e), record g { trace = trace })
  handle_call clock request handler g (ok _, trace) =
      finish_call clock request (handled (handler request.input)) (record g { trace = trace })

  -- From the policy's permission on: the count, and the event TOOL_CALL.
  abbrev pub run_call : CallClock → ToolCallRequest → Handler → ToolGateway → Called
  run_call clock request handler g =
      handle_call clock request handler (record g { call_count = g.call_count + 1 })
        (append_event clock.call_ts clock.call_later tool_call
          (obj (
            field "tool" (str request.tool)
              (field "input_hash" (str (compute_hash request.input)) end)))
          g.trace)

  abbrev pub after_decision :
      CallClock
      → ToolCallRequest
      → Handler
      → ToolGateway
      → Result PolicyError (PolicyDecision × PolicyEngine)
      → Called
  after_decision clock request handler g (err e) = (err (policy_error e), g)
  after_decision clock request handler g (ok (deny, engine)) = (err (unauthorized request.tool), g)
  after_decision clock request handler g (ok (needs_confirm, engine)) =
      (err (confirmation_required request.tool), g)
  after_decision clock request handler g (ok (allow, engine)) =
      run_call clock request handler (record g { engine = engine })

  abbrev pub with_handler : CallClock → ToolCallRequest → Option Handler → ToolGateway → Called
  with_handler clock request none g = (err (tool_not_found request.tool), g)
  with_handler clock request (some handler) g = after_decision clock request handler g (
      evaluate_call clock.now g.default_scope (cut_at_dot request.tool).0 (resource_of request.tool)
        request.data_scope (text_or request.risk_level g.default_risk) g.engine)

  unfoldable pub call_tool : CallClock → ToolCallRequest → ToolGateway → Called
  call_tool clock request g = with_handler clock request (lookup request.tool g.tools) g
