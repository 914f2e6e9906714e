-- ===== src/Gateway/Calls.antt =====
-- What a call through the ToolGateway of src/gateway/index.ts does, and what calls may spend.
use atel_sdk.Base.{
  ℕ, ◌+◌, ◌≤◌, String, ◌≡◌, ◌⊎◌, inl, inr, refl, ◌∙◌, ap, Option, none, some, List, [], ◌∷◌, ◌++◌,
  Result, ok, err, lookup, arith, Option-cases,
}
use atel_sdk.Json.{Value}
use atel_sdk.Identity.{Host}
use atel_sdk.Schema.{RiskLevel}
use atel_sdk.Policy.{
  ProposedAction, PolicyDecision, PolicyEngine, allow, deny, needs_confirm, evaluate, record_call,
  get_remaining_calls,
}
use atel_sdk.Policy.Decisions.{evaluate_iff, record_call-remaining}
use atel_sdk.Trace.{Trace, TraceError}
use atel_sdk.Gateway.{
  ToolCallRequest, ToolCallResult, CallClock, Handler, CallStatus, CallLogEntry, tool_not_found,
  unauthorized, confirmation_required, trace_error, handled, evaluate_call, record_if_allowed,
  extract_data_scope, risk_or_low, risk_of_text, text_or, cut_at_dot, resource_of,
}
use atel_sdk.Gateway.Tools.{
  ToolGateway, Called, log_call, handle_call, after_decision, call_tool, compute_hash,
}

-- An allowed call can be recorded: a call remains.
record_call_allowed :
    (now : ℕ) (action : ProposedAction) (risk : RiskLevel) (engine : PolicyEngine)
    → evaluate now action risk engine ≡ allow
    → (after : PolicyEngine) × (record_call engine ≡ ok after)
      × (get_remaining_calls after + 1 ≡ get_remaining_calls engine)
      × (after.token ≡ engine.token)
unfolding get_remaining_calls
record_call_allowed now action risk engine h =
    let (opened, _, _) = (evaluate_iff now action risk engine).0.0 h in
    elim (record_call-remaining engine) [
      | inl (spent, _) ↦ ground (arith, opened.1, spent)
      | inr (after, made, left, same, _) ↦ (after, made, left, same)
    ]

-- The action that the adapter asks the PolicyEngine about.
abbrev pub action_of : Option String → ToolCallRequest → PolicyEngine → ProposedAction
action_of default_scope request engine = record {
  tool = (cut_at_dot request.tool).0;
  method = resource_of request.tool;
  data_scope =
      text_or request.data_scope (text_or default_scope (extract_data_scope engine.token.scopes));
}

module _ (host : Host) where
  -- The decision of the gateway's policy about a request.
  abbrev pub decide : ℕ → ToolCallRequest → ToolGateway host → PolicyDecision
  decide now request g =
      evaluate now (action_of g.default_scope request g.engine)
        (risk_or_low (risk_of_text (text_or request.risk_level g.default_risk))) g.engine

  -- What an executed call leaves behind: one call is counted and one of the policy's calls is spent. The
  -- tool's outcome is returned and logged under the hashes of the input and of the output, unless the
  -- trace refuses an event.
  abbrev pub Ran : ToolCallRequest → Handler → ToolGateway host → Called host → Type 0
  Ran request handler g (result, after) =
      (after.call_count ≡ g.call_count + 1)
      × (get_remaining_calls after.engine + 1 ≡ get_remaining_calls g.engine)
      × (after.engine.token ≡ g.engine.token)
      × (((e : TraceError) × (result ≡ err (trace_error e)) × (after.call_log ≡ g.call_log))
          ⊎ ((r : ToolCallResult) × (entry : CallLogEntry) × (result ≡ ok r)
              × (handled (handler request.input) ≡ (r.status, r.output))
              × (r.input_hash ≡ compute_hash host request.input)
              × (r.output_hash ≡ compute_hash host r.output)
              × (entry.tool ≡ request.tool)
              × (entry.input_hash ≡ r.input_hash)
              × (entry.output_hash ≡ r.output_hash)
              × (entry.status ≡ r.status)
              × (after.call_log ≡ g.call_log ++ entry ∷ [])))

  -- The gateway after the permission and before the log's entry.
  abbrev IsCounted : ToolGateway host → ToolGateway host → Type 0
  IsCounted g counted =
      (counted.call_count ≡ g.call_count + 1)
      × (get_remaining_calls counted.engine + 1 ≡ get_remaining_calls g.engine)
      × (counted.engine.token ≡ g.engine.token)
      × (counted.call_log ≡ g.call_log)

  abbrev Event : Type 0
  Event = Result TraceError (Unit {0}) × Option (Trace host)

  log_call-Ran :
      (clock : CallClock) (request : ToolCallRequest) (handler : Handler)
      (g counted : ToolGateway host) (status : CallStatus) (output : Value) (event : Event)
      → handled (handler request.input) ≡ (status, output)
      → IsCounted g counted
      → Ran request handler g (log_call host clock request status output counted event)
  log_call-Ran clock request handler g counted status output (err e, trace) outcome
        (count, spent, same, log) =
      (count, spent, same, inl (e, refl, log))
  log_call-Ran clock request handler g counted status output (ok o, trace) outcome
        (count, spent, same, log) =
      let entry : CallLogEntry = record {
        tool = request.tool;
        input_hash = compute_hash host request.input;
        output_hash = compute_hash host output;
        status = status;
        duration_ms = clock.duration_ms;
        timestamp = clock.log_ts;
      } in
      (
        count,
        spent,
        same,
        inr (
          _,
          entry,
          refl,
          outcome,
          refl,
          refl,
          refl,
          refl,
          refl,
          refl,
          ap (λ entries. entries ++ entry ∷ []) log,
        ),
      )

  handle_call-Ran :
      (clock : CallClock) (request : ToolCallRequest) (handler : Handler)
      (g counted : ToolGateway host) (event : Event)
      → IsCounted g counted
      → Ran request handler g (handle_call host clock request handler counted event)
  handle_call-Ran clock request handler g counted (err e, trace) (count, spent, same, log) =
      (count, spent, same, inl (e, refl, log))
  handle_call-Ran clock request handler g counted (ok o, trace) h =
      log_call-Ran clock request handler g (record counted { trace = trace })
        (handled (handler request.input)).0 (handled (handler request.input)).1 _ refl h

  -- The three outcomes of a decision, at the result of a call.
  abbrev pub Decided :
      CallClock → ToolCallRequest → Handler → ToolGateway host → Called host → Type 0
  Decided clock request handler g called =
      ((decide clock.now request g ≡ deny) × (called ≡ (err (unauthorized request.tool), g)))
      ⊎ ((decide clock.now request g ≡ needs_confirm)
          × (called ≡ (err (confirmation_required request.tool), g)))
      ⊎ ((decide clock.now request g ≡ allow) × Ran request handler g called)

  after_decision-Decided :
      (clock : CallClock) (request : ToolCallRequest) (handler : Handler) (g : ToolGateway host)
      (decision : PolicyDecision)
      → decide clock.now request g ≡ decision
      → Decided clock request handler g (
          after_decision host clock request handler g
            (record_if_allowed decision g.engine (record_call g.engine)))
  after_decision-Decided clock request handler g deny e = inl (e, refl)
  after_decision-Decided clock request handler g needs_confirm e = inr (inl (e, refl))
  after_decision-Decided clock request handler g allow e =
      let (after, made, left, same) = record_call_allowed clock.now _ _ g.engine e in
      inr (
        inr (
          e,
          rw made (
              handle_call-Ran clock request handler g
                (record g { engine = after; call_count = g.call_count + 1 }) _
                (refl, left, same, refl)),
        ))

  -- What a call does, on every branch. Without a handler of the tool's name it fails, and so it does
  -- when the policy denies it or wants a confirmation; the gateway is then as it was. Otherwise it is
  -- executed: the call is counted and one of the policy's calls is spent, and the handler's value or
  -- error is returned and logged under the hashes of the input and of the output, unless the trace
  -- refuses an event.
  pub call_tool_cases :
      (clock : CallClock) (request : ToolCallRequest) (g : ToolGateway host)
      → ((lookup request.tool g.tools ≡ none)
          × (call_tool host clock request g ≡ (err (tool_not_found request.tool), g)))
        ⊎ ((handler : Handler) × (lookup request.tool g.tools ≡ some handler)
            × Decided clock request handler g (call_tool host clock request g))
  unfolding call_tool evaluate_call
  call_tool_cases clock request g = elim (Option-cases (lookup request.tool g.tools)) [
    | inl missing ↦ inl (missing, rw missing)
    | inr (handler, known) ↦ inr (
      handler,
      known,
      rw known (after_decision-Decided clock request handler g (decide clock.now request g) refl),
    )
  ]

  abbrev pub call_all : List (CallClock × ToolCallRequest) → ToolGateway host → ToolGateway host
  call_all [] g = g
  call_all ((clock, request) ∷ calls) g = call_all calls (call_tool host clock request g).1

  -- Executed and remaining calls.
  abbrev pub budget : ToolGateway host → ℕ
  budget g = g.call_count + get_remaining_calls g.engine

  call_tool-budget :
      (clock : CallClock) (request : ToolCallRequest) (g : ToolGateway host)
      → budget (call_tool host clock request g).1 ≡ budget g
  call_tool-budget clock request g = elim (call_tool_cases clock request g) [
    | inl (_, same) ↦ rw same
    | inr (_, _, inl (_, same)) ↦ rw same
    | inr (_, _, inr (inl (_, same))) ↦ rw same
    | inr (_, _, inr (inr (_, (count, spent, _, _)))) ↦ omega (arith, count, spent)
  ]

  -- Over any sequence of calls the calls executed and the calls that the policy has left add up to the
  -- same number, so that at most as many calls are executed as were left at the start.
  pub call_all-budget :
      (calls : List (CallClock × ToolCallRequest)) (g : ToolGateway host)
      → (budget (call_all calls g) ≡ budget g)
        × ((call_all calls g).call_count ≤ g.call_count + get_remaining_calls g.engine)
  call_all-budget calls g = (conserved calls g, omega (arith, conserved calls g))
    where
      conserved :
          (calls : List (CallClock × ToolCallRequest)) (g : ToolGateway host)
          → budget (call_all calls g) ≡ budget g
      conserved [] g = refl
      conserved ((clock, request) ∷ calls) g =
          conserved calls (call_tool host clock request g).1 ∙ call_tool-budget clock request g
