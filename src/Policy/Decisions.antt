-- ===== src/Policy/Decisions.antt =====
-- The decisions and the call budget of the PolicyEngine of src/policy/index.ts.
use atel_sdk.Base.{
  ℕ, ◌+◌, ◌≤◌, ◌<◌, ◌≡◌, ◌↔◌, ◌⊎◌, inl, inr, Bool-cases, refl, true, every_of, ok, err, leb, arith,
}
use atel_sdk.Schema.{RiskLevel, risk_order}
use atel_sdk.Policy.{
  ProposedAction, PolicyEngine, PolicyError, allow, needs_confirm, is_expired, covered,
  action_to_scopes, evaluate, record_call, get_remaining_calls,
}

-- The token is in force and has calls left.
abbrev pub IsOpen : ℕ → PolicyEngine → Type 0
IsOpen now engine = (now < engine.token.exp) × (engine.call_count < engine.token.max_calls)

-- An action is allowed exactly when the token has not expired, calls are left, the risk is within the
-- ceiling and the token's scopes cover both scopes of the action; it wants confirmation exactly when
-- the token is in force with calls left and the risk is one level above the ceiling, whatever the scopes.
pub evaluate_iff :
    (now : ℕ) (action : ProposedAction) (risk : RiskLevel) (engine : PolicyEngine)
    → ((evaluate now action risk engine ≡ allow) ↔ (
        IsOpen now engine
        × (risk_order risk ≤ risk_order engine.token.risk_ceiling)
        × (every_of (covered engine.token.scopes) (action_to_scopes action) ≡ true)))
      × ((evaluate now action risk engine ≡ needs_confirm)
          ↔ (IsOpen now engine × (risk_order risk ≡ risk_order engine.token.risk_ceiling + 1)))
unfolding evaluate is_expired
evaluate_iff now action risk engine =
    ((λ h. ground arith, λ h. ground arith), (λ h. ground arith, λ h. ground arith))

-- A call is recorded exactly when one remains, and then takes one of the remaining calls.
pub record_call-remaining :
    (engine : PolicyEngine)
    → ((get_remaining_calls engine ≡ 0)
        × (record_call engine ≡ err PolicyError.call_limit_exceeded))
      ⊎ ((after : PolicyEngine) × (record_call engine ≡ ok after)
          × (get_remaining_calls after + 1 ≡ get_remaining_calls engine)
          × (after.token ≡ engine.token)
          × (after.call_count ≤ engine.token.max_calls))
unfolding record_call get_remaining_calls
record_call-remaining engine = elim (Bool-cases (leb engine.token.max_calls engine.call_count)) [
  | inl full ↦ inl (ground arith, ground arith)
  | inr room ↦ inr (
    record engine { call_count = engine.call_count + 1 },
    ground arith,
    ground arith,
    refl,
    ground arith,
  )
]
