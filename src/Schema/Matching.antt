-- ===== src/Schema/Matching.antt =====
-- Which entries `matchTaskToCapability` of src/schema/index.ts keeps.
use atel_sdk.Base.{
  ℕ, ◌≤◌, ◌≡◌, refl, ap, Bool, true, false, not, Option, none, some, List, [], ◌∷◌, filter, length,
  arith, ◌+◌, eq_iff, some_of, ◌↔◌, ◌∙◌, eq_refl, eqb,
}
use atel_sdk.Schema.{
  Task, CapabilityEntry, Reason, RiskLevel, Settlement, risk_order, same_settlement, check_risk,
  check_settlement, check_cost, or_reason, rejection, match_loop, match_result,
  match_task_to_capability,
}

abbrev pub is_none {ℓ} : {A : Type ℓ} → Option A → Bool
is_none none = true
is_none (some a) = false

abbrev pub WithinRisk : RiskLevel → Option RiskLevel → Type 0
WithinRisk risk none = Unit
WithinRisk risk (some entry) = risk_order risk ≤ risk_order entry

abbrev pub Supports : Option Settlement → Option (List Settlement) → Type 0
Supports (some s) (some supported) = some_of (λ x. same_settlement x s) supported ≡ true
Supports (some s) none = Unit
Supports none supported = Unit

abbrev pub WithinCost : Option ℕ → Option ℕ → Type 0
WithinCost (some cost) (some limit) = cost ≤ limit
WithinCost (some cost) none = Unit
WithinCost none limit = Unit

-- The entry has the task's type and, where both sides say something, covers its risk, its
-- settlement and its cost.
pub record Serves (task : Task) (entry : CapabilityEntry) : Type 0 where
  pub type : entry.type ≡ task.intent_type
  pub risk : WithinRisk task.risk entry.max_risk_level
  pub settlement : Supports task.settlement entry.supported_settlements
  pub cost : WithinCost task.max_cost entry.max_cost

check_risk-none :
    (task : Task) (entry : Option RiskLevel)
    → (check_risk task entry ≡ none) ↔ WithinRisk task.risk entry
check_risk-none task none = (λ h. tt, λ h. refl)
check_risk-none task (some entry) = (λ h. ground arith, λ h. ground arith)

check_settlement-none :
    (s : Option Settlement) (supported : Option (List Settlement))
    → (check_settlement s supported ≡ none) ↔ Supports s supported
check_settlement-none none supported = (λ h. tt, λ h. refl)
check_settlement-none (some s) none = (λ h. tt, λ h. refl)
check_settlement-none (some s) (some supported) = (λ h. ground arith, λ h. ground arith)

check_cost-none : (cost limit : Option ℕ) → (check_cost cost limit ≡ none) ↔ WithinCost cost limit
check_cost-none none limit = (λ h. tt, λ h. refl)
check_cost-none (some c) none = (λ h. tt, λ h. refl)
check_cost-none (some c) (some limit) = (λ h. ground arith, λ h. ground arith)

or_reason-none : (r s : Option Reason) → or_reason r s ≡ none → (r ≡ none) × (s ≡ none)
or_reason-none none s h = (refl, h)
or_reason-none (some r) s h = ground arith

rejection-parts :
    (task : Task) (entry : CapabilityEntry)
    → (rejection task entry ≡ none) ↔ (
        (entry.type ≡ task.intent_type)
        × (check_risk task entry.max_risk_level ≡ none)
        × (check_settlement task.settlement entry.supported_settlements ≡ none)
        × (check_cost task.max_cost entry.max_cost ≡ none))
unfolding rejection
rejection-parts task entry = (
  λ h. ground (
    arith,
    eq_iff entry.type task.intent_type,
    or_reason-none (check_risk task entry.max_risk_level) (
        or_reason (check_settlement task.settlement entry.supported_settlements)
          (check_cost task.max_cost entry.max_cost)),
    or_reason-none (check_settlement task.settlement entry.supported_settlements)
        (check_cost task.max_cost entry.max_cost),
  ),
  λ (a, b, c, d). rw (a, b, c, d) (simp eq_refl),
)

-- An entry is rejected for no reason exactly when it serves the task.
pub rejection-none :
    (task : Task) (entry : CapabilityEntry) → (rejection task entry ≡ none) ↔ Serves task entry
rejection-none task entry = (
  λ h.
      let (a, b, c, d) = (rejection-parts task entry).0 h in
      record {
        type = a;
        risk = (check_risk-none task entry.max_risk_level).0 b;
        settlement = (check_settlement-none task.settlement entry.supported_settlements).0 c;
        cost = (check_cost-none task.max_cost entry.max_cost).0 d;
      },
  λ h. (rejection-parts task entry).1 (
    h.type,
    (check_risk-none task entry.max_risk_level).1 h.risk,
    (check_settlement-none task.settlement entry.supported_settlements).1 h.settlement,
    (check_cost-none task.max_cost entry.max_cost).1 h.cost,
  ),
)

match_loop-filter :
    (task : Task) (caps : List CapabilityEntry)
    → ((match_loop task caps).0 ≡ filter (λ entry. is_none (rejection task entry)) caps)
      × (length (match_loop task caps).0 + length (match_loop task caps).1 ≡ length caps)
unfolding match_loop
match_loop-filter task [] = (refl, omega arith)
match_loop-filter task (entry ∷ caps) = ground (arith, match_loop-filter task caps)

rejection_iff :
    (task : Task) (entry : CapabilityEntry)
    → (is_none (rejection task entry) ≡ true) ↔ Serves task entry
rejection_iff task entry =
    (λ h. (rejection-none task entry).0 (ground arith), λ h. rw ((rejection-none task entry).1 h))

match_result-parts :
    (found : List CapabilityEntry × List Reason)
    → ((match_result found).matched_capabilities ≡ found.0)
      × ((match_result found).matched ≡ not (eqb (length found.0) 0))
      × ((match_result found).matched ≡ false → (match_result found).reasons ≡ found.1)
match_result-parts ([], reasons) = (refl, refl, λ h. refl)
match_result-parts (entry ∷ caps, reasons) = (refl, ground arith, λ h. ground arith)

-- The matched entries are, in the order of the declaration, those that have the task's type and cover
-- its risk, settlement and cost; the result says whether there is one; and when there is none it has a
-- reason for each entry.
pub match_task_to_capability-Serves :
    (task : Task) (caps : List CapabilityEntry)
    → let r = match_task_to_capability task caps in
      (r.matched_capabilities ≡ filter (λ entry. is_none (rejection task entry)) caps)
      × ((entry : CapabilityEntry) → (is_none (rejection task entry) ≡ true) ↔ Serves task entry)
      × (r.matched ≡ not (eqb (length r.matched_capabilities) 0))
      × (r.matched ≡ false → length r.reasons ≡ length caps)
unfolding match_task_to_capability
match_task_to_capability-Serves task caps =
    let (kept, count) = match_loop-filter task caps in
    let (a, b, c) = match_result-parts (match_loop task caps) in
    (a ∙ kept, rejection_iff task, rw a b, λ h. ap length (c h) ∙ ground (arith, count, b, h))
