-- ===== src/Tests/Scores.antt =====
-- The theorems on scores and negotiation at small clients and offers.
use atel_sdk.Base.{lookup, ℕ, String, ◌≡◌, refl, true, false, Option, none, some, List, [], ◌∷◌}
use atel_sdk.Schema.{low, medium, high}
use atel_sdk.Score.{
  OnChainProofRecord, TrustScoreClient, trust_score, raw_score, verification_factor, cold_start_cap,
  adjusted_score, tally_of_proofs,
}
use atel_sdk.Score.Report.{get_agent_score, score_from_proofs}
use atel_sdk.Score.Bounds.{IsBounded, get_agent_score-IsBounded}
use atel_sdk.Score.Records.{Use, add, verify_all, use_all, IsDistinct, use_all-IsDistinct}
use atel_sdk.Negotiation.{NegotiationRequest, NegotiationPolicy, NegotiationResult}
use atel_sdk.Negotiation.Client.{pick_best, sort_by_cost, insert_by_cost}
use atel_sdk.Negotiation.Best.{Chosen, pick_best-Chosen}

abbrev proof : String → OnChainProofRecord
proof tx = record {
  trace_root = "root";
  tx_hash = tx;
  chain = "base";
  executor = "alice";
  task_from = "bob";
  action = "search";
  success = true;
  duration_ms = 20;
  risk_level = high;
  policy_violations = 0;
  proof_id = "p";
  timestamp = "t";
  verified = false;
}

abbrev fresh_client : TrustScoreClient
fresh_client = record { store = []; proof_store = [] }

abbrev uses : List Use
uses =
    add (proof "t1")
    ∷ add (proof "t2")
    ∷ add (proof "t1")
    ∷ verify_all (some (λ root tx. some true)) "alice"
    ∷ []

-- One verified success among one: 60 + 0.15 + 15 + 10 points, capped at 55.
abbrev one_proof : TrustScoreClient
one_proof = record { store = []; proof_store = ("alice", proof "t1" ∷ []) ∷ [] }

one_proof_capped : (get_agent_score "now" "alice" one_proof).score ≡ 5500
unfolding get_agent_score score_from_proofs trust_score adjusted_score raw_score verification_factor
    cold_start_cap tally_of_proofs lookup
one_proof_capped = refl

get_agent_score-IsBounded_example : IsBounded (get_agent_score "now" "alice" one_proof)
get_agent_score-IsBounded_example = get_agent_score-IsBounded "now" "alice" one_proof

use_all-IsDistinct_example : IsDistinct (use_all uses fresh_client)
use_all-IsDistinct_example = use_all-IsDistinct uses fresh_client tt

abbrev request : NegotiationRequest
request = record {
  task_type = "search";
  risk_level = medium;
  constraints = none;
  max_cost = some 10;
  deadline = none;
}

abbrev policy : NegotiationPolicy
policy = record {
  supported_types = "search" ∷ [];
  max_risk_level = high;
  default_scopes = "tool:http" ∷ [];
  default_ttl_sec = 60;
  default_max_calls = 5;
  estimate_cost = some (λ r. some (record { cost = 10; currency = "USD" }));
  estimate_duration = none;
  custom_validator = none;
}

abbrev result : String → Option ℕ → NegotiationResult
result did cost = record {
  success = true;
  agreed_terms = some (record {
    estimated_cost = cost;
    currency = none;
    estimated_duration_ms = none;
    max_risk_level = low;
    required_scopes = [];
    requested_ttl_sec = 60;
    expected_max_calls = 5;
  });
  reason = none;
  executor_did = did;
}

abbrev results : List NegotiationResult
results = result "a" none ∷ result "b" (some 7) ∷ result "c" (some 7) ∷ []

first_cheapest : pick_best results ≡ some (result "b" (some 7))
unfolding pick_best sort_by_cost insert_by_cost
first_cheapest = refl

pick_best-Chosen_example : Chosen results (pick_best results)
pick_best-Chosen_example = pick_best-Chosen results
