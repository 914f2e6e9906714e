-- ===== src/Enforcer.antt =====
-- The limits on requests of bin/atel.mjs: PolicyEnforcer, computeTrustLevel, riskAllowed and checkTrust.
-- A score is read as a percentage with two decimals in hundredths, as computeTrustScore rounds it;
-- the score itself, a computation on fractions, is an argument. Times are in milliseconds.
pub mod Limits
pub mod Trust
use atel_sdk.Base.{
  ℕ, zero, suc, ◌+◌, ◌-◌, ◌*◌, String, Bool, true, false, not, ◌&&◌, ◌||◌, Option, none, some, List,
  [], ◌∷◌, ◌++◌, filter, includes, length, eqb, ltb, leb, ◌==◌, if◌then◌else◌,
}
use atel_sdk.Schema.{RiskLevel, low, medium, high, critical, risk_order}

pub record EnforcerPolicy : Type 0 where
  pub blocked_dids : List String
  pub allowed_dids : List String
  pub rate_limit : ℕ
  pub max_payload_bytes : ℕ
  pub max_concurrent : ℕ

pub record PolicyEnforcer : Type 0 where
  pub policy : EnforcerPolicy
  pub request_log : List ℕ
  pub active_tasks : ℕ

pub data Refusal : Type 0 where
  did_blocked not_in_allowlist rate_limited payload_too_large max_concurrent : Refusal

unfoldable pub new_enforcer : EnforcerPolicy → PolicyEnforcer
new_enforcer policy = record { policy = policy; request_log = []; active_tasks = 0 }

-- The requests of the last minute: `now - t < 60000`.
unfoldable pub recent : ℕ → List ℕ → List ℕ
recent now log = filter (λ t. ltb now (t + 60000)) log

-- `none` is an allowed request. The log is pruned once the lists let the sender pass.
unfoldable pub check : ℕ → String → ℕ → PolicyEnforcer → Option Refusal × PolicyEnforcer
check now from size e =
    let p = e.policy in
    let log = recent now e.request_log in
    let pruned = record e { request_log = log } in
    if ltb 0 (length p.blocked_dids) && includes p.blocked_dids from
    then (some did_blocked, e)
    else if ltb 0 (length p.allowed_dids) && not (includes p.allowed_dids from)
    then (some not_in_allowlist, e)
    else if leb p.rate_limit (length log)
    then (some rate_limited, pruned)
    else if ltb p.max_payload_bytes size
    then (some payload_too_large, pruned)
    else if leb p.max_concurrent e.active_tasks
    then (some max_concurrent, pruned)
    else (none, record e { request_log = log ++ now ∷ [] })

unfoldable pub task_started : PolicyEnforcer → PolicyEnforcer
task_started e = record e { active_tasks = e.active_tasks + 1 }

-- `Math.max(0, activeTasks - 1)`
unfoldable pub task_finished : PolicyEnforcer → PolicyEnforcer
task_finished e = record e { active_tasks = e.active_tasks - 1 }

-- A level with its risk cap.
pub record TrustLevel : Type 0 where
  pub level : ℕ
  pub name : String
  pub max_risk : RiskLevel

unfoldable pub compute_trust_level : ℕ → TrustLevel
compute_trust_level score =
    if leb 9000 score
    then record { level = 3; name = "enterprise_trust"; max_risk = critical }
    else if leb 6500 score
    then record { level = 2; name = "verified_trust"; max_risk = high }
    else if leb 3000 score
    then record { level = 1; name = "basic_trust"; max_risk = medium }
    else record { level = 0; name = "zero_trust"; max_risk = low }

unfoldable pub risk_allowed : RiskLevel → RiskLevel → Bool
risk_allowed max_risk requested = leb (risk_order requested) (risk_order max_risk)

pub record TrustPolicy : Type 0 where
  pub new_agent_policy : String
  -- the threshold of each risk, in hundredths; a missing one is 0
  pub risk_threshold : RiskLevel → ℕ

pub data TrustRefusal : Type 0 where
  unknown_denied only_low_risk below_threshold above_level : TrustRefusal

abbrev pub is_high : RiskLevel → Bool
is_high high = true
is_high critical = true
is_high _ = false

-- checkTrust, from the number of the agent's tasks and its score; `none` is passed.
unfoldable pub check_trust : Bool → TrustPolicy → ℕ → ℕ → RiskLevel → Option TrustRefusal
check_trust force policy tasks score risk =
    let is_new = eqb tasks 0 in
    let threshold = policy.risk_threshold risk in
    if force
    then none
    else if is_new && (policy.new_agent_policy == "deny")
    then some unknown_denied
    else if is_new && ((policy.new_agent_policy == "allow_low_risk") && is_high risk)
    then some only_low_risk
    else if not is_new && (ltb 0 threshold && ltb score threshold)
    then some below_threshold
    else if not (risk_allowed (compute_trust_level score).max_risk risk)
    then some above_level
    else none
