-- ===== src/Score/Bounds.antt =====
-- The bounds of the scores of src/score/index.ts.
use native.Mathlib.Nat.{div-lt_iff_lt-mul}
use atel_sdk.Base.{
  ℕ, suc, ◌+◌, ◌*◌, ◌/◌, ◌≤◌, ◌<◌, String, ◌≡◌, refl, ◌&&◌, Option, none, some, List, [], ◌∷◌,
  arith, length-filter-le, lookup,
}
use atel_sdk.Score.{
  OnChainProofRecord, ExecutionSummary, TrustScoreClient, Tally, min, raw_score,
  verification_factor, cold_start_cap, adjusted_score, trust_score, tally_of_proofs,
  tally_of_summaries, is_high_risk,
}
use atel_sdk.Score.Report.{
  ScoreReport, blank_report, report_of, get_agent_score, score_from_proofs, score_from_summaries,
}

-- A rounded quotient is within a bound that its fraction is within.
rounded_bound : (n c b : ℕ) → 0 < b → n ≤ c * (20 * b) → (n + 10 * b) / (20 * b) ≤ c
rounded_bound n c b h k =
    let below : n + 10 * b < suc c * (20 * b) = grind arith in
    let divided =
      (div-lt_iff_lt-mul {k = 20 * b} {x = n + 10 * b} {y = suc c} (omega arith)).1 below in
    omega (arith, divided)

-- What the counts of records satisfy.
pub record IsTally (t : Tally) : Type 0 where
  pub some_records : 0 < t.total
  pub successes_counted : t.successes ≤ t.total
  pub high_risk_counted : t.high_risk_successes ≤ t.total

tally_of_proofs-IsTally :
    (r : OnChainProofRecord) (records : List OnChainProofRecord)
    → IsTally (tally_of_proofs (r ∷ records))
unfolding tally_of_proofs
tally_of_proofs-IsTally r records = record {
  some_records = omega arith;
  successes_counted = length-filter-le (λ x. x.success) (r ∷ records);
  high_risk_counted = length-filter-le (λ x. is_high_risk x.risk_level && x.success) (r ∷ records);
}

tally_of_summaries-IsTally :
    (s : ExecutionSummary) (summaries : List ExecutionSummary)
    → IsTally (tally_of_summaries (s ∷ summaries))
unfolding tally_of_summaries
tally_of_summaries-IsTally s summaries = record {
  some_records = omega arith;
  successes_counted = length-filter-le (λ x. x.success) (s ∷ summaries);
  high_risk_counted =
      length-filter-le (λ x. is_high_risk x.risk_level && x.success) (s ∷ summaries);
}

min-le_left : (a b : ℕ) → min a b ≤ a
min-le_left a b = ground arith

min-le_right : (a b : ℕ) → min a b ≤ b
min-le_right a b = ground arith

min_mul : (a b c : ℕ) → b ≤ c → min a b * a ≤ c * a
min_mul a b c h = grind (arith, min-le_right a b)

-- The raw score is at most 100 points.
raw_score-le : (t : Tally) → IsTally t → raw_score t ≤ 2000 * t.total
unfolding raw_score
raw_score-le t h =
    omega (arith, h.successes_counted, h.high_risk_counted, min_mul t.total 100 100 (omega arith))

adjusted-le_cap : (t : Tally) → adjusted_score t ≤ 100 * cold_start_cap t.total * (20 * t.total)
unfolding adjusted_score cold_start_cap
adjusted-le_cap t = ground (
  arith,
  min-le_right (raw_score t * verification_factor t) (cold_start_cap t.total * (2000 * t.total)),
)

adjusted-le_factor :
    (t : Tally) → IsTally t → adjusted_score t ≤ 100 * verification_factor t * (20 * t.total)
unfolding adjusted_score verification_factor
adjusted-le_factor t h = ground (
  arith,
  raw_score-le t h,
  min-le_left (raw_score t * verification_factor t) (cold_start_cap t.total * (2000 * t.total)),
)

trust_score-le :
    (t : Tally)
    → IsTally t
    → (trust_score t ≤ 100 * cold_start_cap t.total) × (trust_score t ≤ 100 * verification_factor t)
unfolding trust_score
trust_score-le t h = (
  rounded_bound _ (100 * cold_start_cap t.total) t.total h.some_records (adjusted-le_cap t),
  rounded_bound _ (100 * verification_factor t) t.total h.some_records (adjusted-le_factor t h),
)

-- What the score of a report never exceeds, in hundredths of a point.
abbrev pub IsBounded : ScoreReport → Type 0
IsBounded r =
    (r.score ≤ 10000)
    × (r.total_tasks < 5 → r.score ≤ 5500)
    × (r.total_tasks < 10 → r.score ≤ 6500)
    × (r.total_tasks < 20 → r.score ≤ 7500)
    × (3 ≤ r.total_tasks → 2 * r.verified_count < r.total_tasks → r.score ≤ 8500)
    × (10 ≤ r.total_tasks → 2 * r.verified_count < r.total_tasks → r.score ≤ 7000)

tally-IsBounded :
    (t : Tally) (r : ScoreReport)
    → IsTally t
    → r.score ≡ trust_score t
    → r.total_tasks ≡ t.total
    → r.verified_count ≡ t.verified
    → IsBounded r
unfolding cold_start_cap verification_factor
tally-IsBounded t r h score total verified =
    let (capped, weighed) = trust_score-le t h in
    (ground arith, ground arith, ground arith, ground arith, ground arith, ground arith)

blank-IsBounded : (now agent : String) → IsBounded (blank_report now agent)
blank-IsBounded now agent = (
  omega arith,
  λ _. omega arith,
  λ _. omega arith,
  λ _. omega arith,
  λ _ _. omega arith,
  λ _ _. omega arith,
)

summaries-IsBounded :
    (now agent : String) (s : ExecutionSummary) (summaries : List ExecutionSummary)
    → IsBounded (score_from_summaries now agent (s ∷ summaries))
unfolding score_from_summaries tally_of_summaries
summaries-IsBounded now agent s summaries =
    tally-IsBounded (tally_of_summaries (s ∷ summaries))
      (score_from_summaries now agent (s ∷ summaries)) (tally_of_summaries-IsTally s summaries) refl
      refl refl

report_of-IsBounded :
    (now agent : String) (records : Option (List OnChainProofRecord))
    (summaries : Option (List ExecutionSummary))
    → IsBounded (report_of now agent records summaries)
unfolding score_from_proofs
report_of-IsBounded now agent (some (r ∷ records)) summaries =
    tally-IsBounded (tally_of_proofs (r ∷ records)) (score_from_proofs now agent (r ∷ records))
      (tally_of_proofs-IsTally r records) refl refl refl
report_of-IsBounded now agent none (some (s ∷ summaries)) =
    summaries-IsBounded now agent s summaries
report_of-IsBounded now agent (some []) (some (s ∷ summaries)) =
    summaries-IsBounded now agent s summaries
report_of-IsBounded now agent none none = blank-IsBounded now agent
report_of-IsBounded now agent none (some []) = blank-IsBounded now agent
report_of-IsBounded now agent (some []) none = blank-IsBounded now agent
report_of-IsBounded now agent (some []) (some []) = blank-IsBounded now agent

-- Every agent's score is between 0 and 100 points. It is at most 55, 65 and 75 points below 5, 10 and 20
-- tasks, and where less than half of the records are verified, at most 85 points from 3 tasks on and 70
-- points from 10 tasks on; an agent's own summaries count as unverified.
pub get_agent_score-IsBounded :
    (now agent : String) (c : TrustScoreClient) → IsBounded (get_agent_score now agent c)
unfolding get_agent_score
get_agent_score-IsBounded now agent c =
    report_of-IsBounded now agent (lookup agent c.proof_store) (lookup agent c.store)
