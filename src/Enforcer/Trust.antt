-- ===== src/Enforcer/Trust.antt =====
-- What checkTrust of bin/atel.mjs lets pass.
use atel_sdk.Base.{ℕ, ◌≤◌, ◌<◌, ◌≡◌, ◌↔◌, refl, true, false, none, ◌==◌, arith}
use atel_sdk.Schema.{RiskLevel, low, medium, high, critical}
use atel_sdk.Enforcer.{TrustPolicy, compute_trust_level, risk_allowed, check_trust}

-- The score that a risk wants: none for low, 30, 65 and 90 for the others.
abbrev pub wanted_score : RiskLevel → ℕ
wanted_score low = 0
wanted_score medium = 3000
wanted_score high = 6500
wanted_score critical = 9000

-- A level allows exactly the risks whose score it has, so more trust never allows less.
pub risk_allowed_iff :
    (score : ℕ) (risk : RiskLevel)
    → (risk_allowed (compute_trust_level score).max_risk risk ≡ true) ↔ (wanted_score risk ≤ score)
unfolding risk_allowed compute_trust_level
risk_allowed_iff score low = (λ h. ground arith, λ h. ground arith)
risk_allowed_iff score medium = (λ h. ground arith, λ h. ground arith)
risk_allowed_iff score high = (λ h. ground arith, λ h. ground arith)
risk_allowed_iff score critical = (λ h. ground arith, λ h. ground arith)

new_agent :
    (policy : TrustPolicy) (risk : RiskLevel)
    → (check_trust false policy 0 0 risk ≡ none)
      ↔ ((risk ≡ low) × ((policy.new_agent_policy == "deny") ≡ false))
unfolding check_trust risk_allowed compute_trust_level
new_agent policy low = (λ h. (refl, ground arith), λ h. ground arith)
new_agent policy medium = (λ h. ground arith, λ h. ground arith)
new_agent policy high = (λ h. ground arith, λ h. ground arith)
new_agent policy critical = (λ h. ground arith, λ h. ground arith)

-- An agent with tasks passes without force exactly when its score reaches the policy's threshold for
-- the risk and the score that the risk wants. A new agent's score is 0, so it passes for a low risk
-- alone, and only where the policy does not deny unknown agents.
pub check_trust_iff :
    (policy : TrustPolicy) (tasks score : ℕ) (risk : RiskLevel)
    → ((0 < tasks)
        → (check_trust false policy tasks score risk ≡ none)
          ↔ ((policy.risk_threshold risk ≤ score) × (wanted_score risk ≤ score)))
      × ((check_trust false policy 0 0 risk ≡ none)
          ↔ ((risk ≡ low) × ((policy.new_agent_policy == "deny") ≡ false)))
unfolding check_trust
check_trust_iff policy tasks score risk = (
  λ some_tasks. (
    λ h. ground (arith, risk_allowed_iff score risk),
    λ h. ground (arith, risk_allowed_iff score risk),
  ),
  new_agent policy risk,
)
