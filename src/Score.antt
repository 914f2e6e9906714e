-- ===== src/Score.antt =====
-- TrustScoreClient of src/score/index.ts: the stores, what goes in, and the report. The code computes on
-- doubles; here the fractions are exact, over the denominator 20 * total, and a score is in hundredths, as
-- the last step rounds it. `provider` is the anchor provider; it answers, throws (`none`), or is missing.
-- Durations are naturals, so the throw on a negative one cannot occur. `exportData` is left out.
pub mod Bounds
pub mod Report
pub mod Records
use atel_sdk.Base.{
  ℕ, zero, suc, ◌+◌, ◌-◌, ◌*◌, ◌/◌, ◌≤◌, String, Bool, true, false, not, ◌&&◌, ◌||◌, Option, none,
  some, List, [], ◌∷◌, ◌++◌, Result, ok, err, ◌>>=◌, ◌>>◌, throw_if, Map, lookup, insert, filter,
  length, some_of, every_of, eqb, ltb, leb, ◌==◌, truthy, if◌then◌else◌,
}
use atel_sdk.Schema.{RiskLevel, low, medium, high, critical}

pub record OnChainProofRecord : Type 0 where
  pub trace_root : String
  pub tx_hash : String
  pub chain : String
  pub executor : String
  pub task_from : String
  pub action : String
  pub success : Bool
  pub duration_ms : ℕ
  pub risk_level : RiskLevel
  pub policy_violations : ℕ
  pub proof_id : String
  pub timestamp : String
  pub verified : Bool

pub record ExecutionSummary : Type 0 where
  pub executor : String
  pub task_id : String
  pub task_type : String
  pub risk_level : RiskLevel
  pub success : Bool
  pub duration_ms : ℕ
  pub tool_calls : ℕ
  pub policy_violations : ℕ
  pub proof_id : String
  pub timestamp : String

pub data RiskFlag : Type 0 where
  low_success_rate has_violations low_risk_only recent_failures no_verified_proofs : RiskFlag

pub data ScoreError : Type 0 where
  executor_required tx_hash_required task_id_required : ScoreError

pub record TrustScoreClient : Type 0 where
  pub store : Map (List ExecutionSummary)
  pub proof_store : Map (List OnChainProofRecord)

abbrev pub or_empty {ℓ} : {A : Type ℓ} → Option (List A) → List A
or_empty none = []
or_empty (some xs) = xs

abbrev pub has_tx : String → List OnChainProofRecord → Bool
has_tx tx records = some_of (λ r. r.tx_hash == tx) records

-- The agent's records with a new one, unless its transaction is there.
abbrev pub with_record :
    OnChainProofRecord → Option (List OnChainProofRecord) → TrustScoreClient → TrustScoreClient
with_record r none c = record c { proof_store = insert r.executor (r ∷ []) c.proof_store }
with_record r (some existing) c =
    if has_tx r.tx_hash existing
    then c
    else record c { proof_store = insert r.executor (existing ++ r ∷ []) c.proof_store }

unfoldable pub add_proof_record :
    OnChainProofRecord → TrustScoreClient → Result ScoreError TrustScoreClient
add_proof_record r c = do
  throw_if (not (truthy r.executor)) executor_required
  throw_if (not (truthy r.tx_hash)) tx_hash_required
  ok (with_record r (lookup r.executor c.proof_store) c)

unfoldable pub submit_execution_summary :
    ExecutionSummary → TrustScoreClient → Result ScoreError TrustScoreClient
submit_execution_summary s c = do
  throw_if (not (truthy s.executor)) executor_required
  throw_if (not (truthy s.task_id)) task_id_required
  ok (record c {
    store = insert s.executor (or_empty (lookup s.executor c.store) ++ s ∷ []) c.store;
  })

abbrev pub Provider : Type 0
Provider = Option (String → String → Option Bool)

-- The answer, and the record with its flag: a throw and a missing provider leave it.
abbrev pub flagged : OnChainProofRecord → Option Bool → Bool × OnChainProofRecord
flagged r none = (false, r)
flagged r (some valid) = (valid, record r { verified = valid })

unfoldable pub verify_proof_record : Provider → OnChainProofRecord → Bool × OnChainProofRecord
verify_proof_record none r = (false, r)
verify_proof_record (some verify) r = flagged r (verify r.trace_root r.tx_hash)

-- The number of records that became verified, and the records.
unfoldable pub verify_each : Provider → List OnChainProofRecord → ℕ × List OnChainProofRecord
verify_each provider [] = (0, [])
verify_each provider (r ∷ records) =
    let rest = verify_each provider records in
    let one = verify_proof_record provider r in
    if r.verified
    then (rest.0, r ∷ rest.1)
    else ((if one.0 then suc rest.0 else rest.0), one.1 ∷ rest.1)

abbrev pub verify_found :
    Provider → String → Option (List OnChainProofRecord) → TrustScoreClient → ℕ × TrustScoreClient
verify_found provider agent none c = (0, c)
verify_found provider agent (some records) c =
    let r = verify_each provider records in
    (r.0, record c { proof_store = insert agent r.1 c.proof_store })

unfoldable pub verify_all_records : Provider → String → TrustScoreClient → ℕ × TrustScoreClient
verify_all_records provider agent c = verify_found provider agent (lookup agent c.proof_store) c

abbrev pub is_high_risk : RiskLevel → Bool
is_high_risk high = true
is_high_risk critical = true
is_high_risk _ = false

abbrev pub is_low_risk : RiskLevel → Bool
is_low_risk low = true
is_low_risk _ = false

abbrev pub min : ℕ → ℕ → ℕ
min a b = if leb a b then a else b

-- What both computations count in their records.
pub record Tally : Type 0 where
  pub total : ℕ
  pub successes : ℕ
  pub high_risk_successes : ℕ
  pub violations : ℕ
  pub verified : ℕ

-- The raw score, times 20 * total: 60, 15, 15 and 10 points at most.
unfoldable pub raw_score : Tally → ℕ
raw_score t =
    1200 * t.successes
    + 3 * (min t.total 100 * t.total)
    + 300 * t.high_risk_successes
    + 200 * (t.total - min t.violations t.total)

-- In percent: 85 or 70 where at least 3 or 10 records are verified by less than half.
unfoldable pub verification_factor : Tally → ℕ
verification_factor t =
    if leb 3 t.total && ltb (2 * t.verified) t.total
    then (if leb 10 t.total then 70 else 85)
    else 100

-- The cap of a cold start, in points.
unfoldable pub cold_start_cap : ℕ → ℕ
cold_start_cap total =
    if ltb total 5 then 55 else if ltb total 10 then 65 else if ltb total 20 then 75 else 100

-- applyV2Adjustments and the clamp to 100 points, times 2000 * total.
unfoldable pub adjusted_score : Tally → ℕ
adjusted_score t =
    min (raw_score t * verification_factor t) (cold_start_cap t.total * (2000 * t.total))

-- `Math.round(score * 100) / 100`, in hundredths
unfoldable pub trust_score : Tally → ℕ
trust_score t = (adjusted_score t + 10 * t.total) / (20 * t.total)

abbrev pub sum_of {ℓ} : {A : Type ℓ} → (A → ℕ) → List A → ℕ
sum_of f [] = 0
sum_of f (x ∷ xs) = f x + sum_of f xs

abbrev pub count_of {ℓ} : {A : Type ℓ} → (A → Bool) → List A → ℕ
count_of p xs = length (filter p xs)

unfoldable pub tally_of_proofs : List OnChainProofRecord → Tally
tally_of_proofs records = record {
  total = length records;
  successes = count_of (λ r. r.success) records;
  high_risk_successes = count_of (λ r. is_high_risk r.risk_level && r.success) records;
  violations = sum_of (λ r. r.policy_violations) records;
  verified = count_of (λ r. r.verified) records;
}

-- Reports of an agent itself are never verified.
unfoldable pub tally_of_summaries : List ExecutionSummary → Tally
tally_of_summaries summaries = record {
  total = length summaries;
  successes = count_of (λ s. s.success) summaries;
  high_risk_successes = count_of (λ s. is_high_risk s.risk_level && s.success) summaries;
  violations = sum_of (λ s. s.policy_violations) summaries;
  verified = 0;
}
