-- ===== src/Score/Report.antt =====
-- The reports of TrustScoreClient of src/score/index.ts: their counts, flags and averages.
use atel_sdk.Base.{
  ℕ, zero, suc, ◌+◌, ◌-◌, ◌*◌, ◌/◌, String, Bool, not, ◌&&◌, Option, none, some, List, [], ◌∷◌,
  ◌++◌, Map, lookup, insert, includes, length, map, some_of, every_of, eqb, ltb, leb, if◌then◌else◌,
}
use atel_sdk.Schema.{RiskLevel, low, medium, high, critical}
use atel_sdk.Score.{
  OnChainProofRecord, ExecutionSummary, RiskFlag, low_success_rate, has_violations, low_risk_only,
  recent_failures, no_verified_proofs, TrustScoreClient, Tally, is_low_risk, count_of, sum_of,
  trust_score, tally_of_proofs, tally_of_summaries,
}

pub record ScoreReport : Type 0 where
  pub agent_id : String
  pub score : ℕ
  pub total_tasks : ℕ
  -- the successes of a success rate over the total
  pub successes : ℕ
  pub avg_duration_ms : ℕ
  pub risk_distribution : Map ℕ
  pub risk_flags : List RiskFlag
  pub verified_count : ℕ
  pub last_updated : String

abbrev pub risk_name : RiskLevel → String
risk_name low = "low"
risk_name medium = "medium"
risk_name high = "high"
risk_name critical = "critical"

abbrev pub or_zero : Option ℕ → ℕ
or_zero none = 0
or_zero (some n) = n

-- The loop that counts the levels.
unfoldable pub risk_distribution_of : List RiskLevel → Map ℕ → Map ℕ
risk_distribution_of [] counts = counts
risk_distribution_of (r ∷ levels) counts =
    risk_distribution_of levels
      (insert (risk_name r) (or_zero (lookup (risk_name r) counts) + 1) counts)

abbrev pub drop {ℓ} : {A : Type ℓ} → ℕ → List A → List A
drop zero xs = xs
drop (suc n) [] = []
drop (suc n) (x ∷ xs) = drop n xs

-- `slice(-10)`
abbrev pub last_ten {ℓ} : {A : Type ℓ} → List A → List A
last_ten xs = drop (length xs - 10) xs

-- More than half of at least two recent ones failed.
abbrev pub mostly_failed : List Bool → Bool
mostly_failed recent = leb 2 (length recent) && ltb (length recent) (2 * count_of not recent)

abbrev pub flag_if : Bool → RiskFlag → List RiskFlag → List RiskFlag
flag_if test flag flags = if test then flag ∷ flags else flags

-- The flags that both computations raise, before `rest`.
unfoldable pub common_flags :
    Tally → List RiskLevel → List Bool → List ℕ → List RiskFlag → List RiskFlag
common_flags t levels outcomes violations rest =
    flag_if (ltb (2 * t.successes) t.total) low_success_rate (
      flag_if (some_of (λ v. ltb 0 v) violations) has_violations (
        flag_if (every_of is_low_risk levels && ltb 50 t.total) low_risk_only
          (flag_if (mostly_failed (last_ten outcomes)) recent_failures rest)))

-- `Math.round(sum / total)`
abbrev pub rounded_average : ℕ → ℕ → ℕ
rounded_average sum total = (2 * sum + total) / (2 * total)

unfoldable pub score_from_proofs : String → String → List OnChainProofRecord → ScoreReport
score_from_proofs now agent records =
    let t = tally_of_proofs records in
    record {
      agent_id = agent;
      score = trust_score t;
      total_tasks = t.total;
      successes = t.successes;
      avg_duration_ms = rounded_average (sum_of (λ r. r.duration_ms) records) t.total;
      risk_distribution = risk_distribution_of (map (λ r. r.risk_level) records) [];
      risk_flags =
          common_flags t (map (λ r. r.risk_level) records) (map (λ r. r.success) records)
            (map (λ r. r.policy_violations) records)
            (flag_if (eqb t.verified 0 && ltb 0 t.total) no_verified_proofs []);
      verified_count = t.verified;
      last_updated = now;
    }

unfoldable pub score_from_summaries : String → String → List ExecutionSummary → ScoreReport
score_from_summaries now agent summaries =
    let t = tally_of_summaries summaries in
    record {
      agent_id = agent;
      score = trust_score t;
      total_tasks = t.total;
      successes = t.successes;
      avg_duration_ms = rounded_average (sum_of (λ s. s.duration_ms) summaries) t.total;
      risk_distribution = risk_distribution_of (map (λ s. s.risk_level) summaries) [];
      risk_flags =
          common_flags t (map (λ s. s.risk_level) summaries) (map (λ s. s.success) summaries)
            (map (λ s. s.policy_violations) summaries) [];
      verified_count = 0;
      last_updated = now;
    }

abbrev pub blank_report : String → String → ScoreReport
blank_report now agent = record {
  agent_id = agent;
  score = 0;
  total_tasks = 0;
  successes = 0;
  avg_duration_ms = 0;
  risk_distribution = [];
  risk_flags = [];
  verified_count = 0;
  last_updated = now;
}

-- The proof records come first; without any, the summaries.
abbrev pub report_of :
    String
    → String
    → Option (List OnChainProofRecord)
    → Option (List ExecutionSummary)
    → ScoreReport
report_of now agent (some (r ∷ records)) summaries = score_from_proofs now agent (r ∷ records)
report_of now agent _ (some (s ∷ summaries)) = score_from_summaries now agent (s ∷ summaries)
report_of now agent _ _ = blank_report now agent

unfoldable pub get_agent_score : String → String → TrustScoreClient → ScoreReport
get_agent_score now agent c =
    report_of now agent (lookup agent c.proof_store) (lookup agent c.store)

abbrev pub keys {ℓ} : {V : Type ℓ} → Map V → List String
keys m = map (λ e. e.0) m

-- The agents of both stores, each once, in the order of a Set.
unfoldable pub add_new : List String → List String → List String
add_new seen [] = seen
add_new seen (x ∷ xs) = add_new (if includes seen x then seen else seen ++ x ∷ []) xs

unfoldable pub get_all_scores : String → TrustScoreClient → List ScoreReport
get_all_scores now c =
    map (λ agent. get_agent_score now agent c) (add_new [] (keys c.proof_store ++ keys c.store))
