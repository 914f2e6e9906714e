-- ===== src/Score/Records.antt =====
-- What enters the proof store of src/score/index.ts: each transaction once for an agent.
use atel_sdk.Base.{
  ℕ, String, ◌≡◌, refl, ◌∙◌, Option, none, some, List, [], ◌∷◌, ◌++◌, Result, ok, err, lookup,
  IsDistinctBy, append-IsDistinctBy, All, All-insert, All-lookup, truthy, arith, if-elim,
  Bool-cases, inl, inr,
}
use atel_sdk.Score.{
  OnChainProofRecord, TrustScoreClient, ScoreError, Provider, add_proof_record, with_record, has_tx,
  verify_proof_record, verify_each, verify_found, verify_all_records,
}

-- No transaction twice.
abbrev pub Distinct : List OnChainProofRecord → Type 0
Distinct records = IsDistinctBy (λ r. r.tx_hash) records

-- Every agent's records.
abbrev pub IsDistinct : TrustScoreClient → Type 0
IsDistinct c = All (λ e. Distinct e.1) c.proof_store

with_record-IsDistinct :
    (r : OnChainProofRecord) (o : Option (List OnChainProofRecord)) (c : TrustScoreClient)
    → lookup r.executor c.proof_store ≡ o
    → IsDistinct c
    → IsDistinct (with_record r o c)
with_record-IsDistinct r none c e h = All-insert _ r.executor (r ∷ []) c.proof_store (refl, tt) h
with_record-IsDistinct r (some existing) c e h = elim (Bool-cases (has_tx r.tx_hash existing)) [
  | inl known ↦ rw known h
  | inr new ↦ rw new (
      All-insert _ r.executor (existing ++ r ∷ []) c.proof_store
        (append-IsDistinctBy (λ x. x.tx_hash) existing r
          (All-lookup Distinct r.executor existing c.proof_store h e) new)
        h)
]

-- Verifying changes no transaction.
verify_proof_record-tx :
    (provider : Provider) (r : OnChainProofRecord)
    → (verify_proof_record provider r).1.tx_hash ≡ r.tx_hash
unfolding verify_proof_record
verify_proof_record-tx none r = refl
verify_proof_record-tx (some verify) r = ground arith

verify_each-has_tx :
    (provider : Provider) (tx : String) (records : List OnChainProofRecord)
    → has_tx tx (verify_each provider records).1 ≡ has_tx tx records
unfolding verify_each
verify_each-has_tx provider tx [] = refl
verify_each-has_tx provider tx (r ∷ records) =
    let rest = verify_each-has_tx provider tx records in
    if-elim (λ (v : ℕ × List OnChainProofRecord). has_tx tx v.1 ≡ has_tx tx (r ∷ records))
      r.verified (simp rest refl) (simp (verify_proof_record-tx provider r, rest) refl)

verify_each-Distinct :
    (provider : Provider) (records : List OnChainProofRecord)
    → Distinct records
    → Distinct (verify_each provider records).1
unfolding verify_each
verify_each-Distinct provider [] h = tt
verify_each-Distinct provider (r ∷ records) h =
    let new = verify_each-has_tx provider r.tx_hash records ∙ h.0 in
    let rest = verify_each-Distinct provider records h.1 in
    if-elim (λ (v : ℕ × List OnChainProofRecord). Distinct v.1) r.verified (new, rest)
      (simp (verify_proof_record-tx provider r) new, rest)

-- What a client may do with its proofs.
pub data Use : Type 0 where
  add : OnChainProofRecord → Use
  verify_all : Provider → String → Use

abbrev pub or_same : TrustScoreClient → Result ScoreError TrustScoreClient → TrustScoreClient
or_same c (ok d) = d
or_same c (err e) = c

abbrev pub use_once : Use → TrustScoreClient → TrustScoreClient
use_once (add r) c = or_same c (add_proof_record r c)
use_once (verify_all provider agent) c = (verify_all_records provider agent c).1

abbrev pub use_all : List Use → TrustScoreClient → TrustScoreClient
use_all [] c = c
use_all (u ∷ uses) c = use_all uses (use_once u c)

found-IsDistinct :
    (provider : Provider) (agent : String) (o : Option (List OnChainProofRecord))
    (c : TrustScoreClient)
    → lookup agent c.proof_store ≡ o
    → IsDistinct c
    → IsDistinct (verify_found provider agent o c).1
found-IsDistinct provider agent none c e h = h
found-IsDistinct provider agent (some records) c e h =
    All-insert _ agent (verify_each provider records).1 c.proof_store
      (verify_each-Distinct provider records (All-lookup Distinct agent records c.proof_store h e))
      h

use_once-IsDistinct : (u : Use) (c : TrustScoreClient) → IsDistinct c → IsDistinct (use_once u c)
unfolding add_proof_record verify_all_records
use_once-IsDistinct (add r) c h = elim (Bool-cases (truthy r.executor)) [
  | inr e ↦ rw e h
  | inl e ↦ elim (Bool-cases (truthy r.tx_hash)) [
    | inr f ↦ rw (e, f) h
    | inl f ↦ rw (e, f) (with_record-IsDistinct r (lookup r.executor c.proof_store) c refl h)
  ]
]
use_once-IsDistinct (verify_all provider agent) c h =
    found-IsDistinct provider agent (lookup agent c.proof_store) c refl h

-- However a client that starts empty, or with each agent's transactions distinct, adds proofs and verifies
-- them, no agent has two records of one transaction.
pub use_all-IsDistinct :
    (uses : List Use) (c : TrustScoreClient) → IsDistinct c → IsDistinct (use_all uses c)
use_all-IsDistinct [] c h = h
use_all-IsDistinct (u ∷ uses) c h =
    use_all-IsDistinct uses (use_once u c) (use_once-IsDistinct u c h)
