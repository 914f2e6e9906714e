-- ===== src/Schema.antt =====
-- Risk levels and capability matching of src/schema/index.ts. The validators are ajv's; the texts of
-- the reasons are a constructor for each kind.
pub mod Matching
use atel_sdk.Base.{
  ℕ, String, Bool, true, false, not, ◌&&◌, Option, none, some, List, [], ◌∷◌, ltb, leb, some_of,
  ◌==◌, if◌then◌else◌, eqb,
}

pub data RiskLevel : Type 0 where
  low medium high critical : RiskLevel

-- RISK_ORDER, which the policy module and the command line repeat.
abbrev pub risk_order : RiskLevel → ℕ
risk_order low = 0
risk_order medium = 1
risk_order high = 2
risk_order critical = 3

pub data Settlement : Type 0 where
  offchain onchain credit : Settlement

abbrev pub same_settlement : Settlement → Settlement → Bool
same_settlement offchain offchain = true
same_settlement onchain onchain = true
same_settlement credit credit = true
same_settlement _ _ = false

-- The parts of a task that matching reads; an absent `economics` has neither of the two last.
pub record Task : Type 0 where
  pub intent_type : String
  pub risk : RiskLevel
  pub settlement : Option Settlement
  pub max_cost : Option ℕ

-- An absent `constraints` has none of the three.
pub record CapabilityEntry : Type 0 where
  pub type : String
  pub max_risk_level : Option RiskLevel
  pub supported_settlements : Option (List Settlement)
  pub max_cost : Option ℕ

pub data Reason : Type 0 where
  type_mismatch : String → Reason
  risk_exceeded : RiskLevel → Reason
  settlement_unsupported : Settlement → Reason
  cost_exceeded : ℕ → Reason

abbrev pub check_risk : Task → Option RiskLevel → Option Reason
check_risk task none = none
check_risk task (some entry) =
    if ltb (risk_order entry) (risk_order task.risk) then some (risk_exceeded entry) else none

abbrev pub check_settlement : Option Settlement → Option (List Settlement) → Option Reason
check_settlement (some s) (some supported) =
    if not (some_of (λ x. same_settlement x s) supported)
    then some (settlement_unsupported s)
    else none
check_settlement _ _ = none

abbrev pub check_cost : Option ℕ → Option ℕ → Option Reason
check_cost (some cost) (some limit) = if ltb limit cost then some (cost_exceeded limit) else none
check_cost _ _ = none

-- The first of two reasons.
abbrev pub or_reason : Option Reason → Option Reason → Option Reason
or_reason none r = r
or_reason (some r) _ = some r

-- One round of the loop: why the entry does not match, if it does not.
unfoldable pub rejection : Task → CapabilityEntry → Option Reason
rejection task entry =
    if not (entry.type == task.intent_type)
    then some (type_mismatch entry.type)
    else or_reason (check_risk task entry.max_risk_level) (
        or_reason (check_settlement task.settlement entry.supported_settlements)
          (check_cost task.max_cost entry.max_cost))

pub record MatchResult : Type 0 where
  pub matched : Bool
  pub matched_capabilities : List CapabilityEntry
  pub reasons : List Reason

abbrev pub with_entry :
    CapabilityEntry
    → Option Reason
    → List CapabilityEntry × List Reason
    → List CapabilityEntry × List Reason
with_entry entry none (matched, reasons) = (entry ∷ matched, reasons)
with_entry entry (some r) (matched, reasons) = (matched, r ∷ reasons)

unfoldable pub match_loop : Task → List CapabilityEntry → List CapabilityEntry × List Reason
match_loop task [] = ([], [])
match_loop task (entry ∷ caps) = with_entry entry (rejection task entry) (match_loop task caps)

abbrev pub match_result : List CapabilityEntry × List Reason → MatchResult
match_result ([], reasons) = record {
  matched = false;
  matched_capabilities = [];
  reasons = reasons;
}
match_result (entry ∷ caps, reasons) = record {
  matched = true;
  matched_capabilities = entry ∷ caps;
  reasons = [];
}

unfoldable pub match_task_to_capability : Task → List CapabilityEntry → MatchResult
match_task_to_capability task capabilities = match_result (match_loop task capabilities)
