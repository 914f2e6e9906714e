-- ===== src/Collaboration/Events.antt =====
-- The events that CollaborationAnchor of src/collaboration/index.ts hashes and describes. Scores and counts
-- are natural numbers. An option that is missing has no field.
use atel_sdk.Base.{ℕ, String, Option, none, some, List, [], ◌∷◌, concat}
use atel_sdk.Json.{Value, Fields, str, num, bool, obj, arr, nil, cons, end, field, sorted_stringify}
use atel_sdk.Json.Text.{decimal}
use atel_sdk.Identity.{Host}
use atel_sdk.Crypto.{Ciphers}
use atel_sdk.Handshake.{Session}
use atel_sdk.Proof.{ProofBundle}
use atel_sdk.Collaboration.{
  handshake, task_delegation, execution_proof, trust_score, dispute_evidence, key_rotation,
  TaskDelegationData, TrustScoreSnapshot, DisputeEvidence, Event,
}

abbrev pub text : List String → String
text [] = ""
text (s ∷ ss) = concat s (text ss)

abbrev pub option_field : String → Option String → Fields → Fields
option_field name none rest = rest
option_field name (some s) rest = field name (str s) rest

abbrev pub two_items : String → String → Value
two_items a b = arr (cons (str a) (cons (str b) nil))

unfoldable pub delegation_value : TaskDelegationData → Value
delegation_value d = obj (
    field "requestorDid" (str d.requestor_did) (
      field "executorDid" (str d.executor_did) (
        field "taskType" (str d.task_type) (
          field "consentHash" (str d.consent_hash) (
            field "policyHash" (str d.policy_hash)
              (field "timestamp" (str d.timestamp) (option_field "termsHash" d.terms_hash end)))))))

unfoldable pub snapshot_value : TrustScoreSnapshot → Value
snapshot_value s = obj (
    field "agentDid" (str s.agent_did) (
      field "score" (num s.score) (
        field "completedTasks" (num s.completed_tasks) (
          field "failedTasks" (num s.failed_tasks) (
            field "timestamp" (str s.timestamp)
              (option_field "previousHash" s.previous_hash end))))))

unfoldable pub evidence_value : DisputeEvidence → Value
evidence_value e = obj (
    field "disputeId" (str e.dispute_id) (
      field "complainantDid" (str e.complainant_did) (
        field "respondentDid" (str e.respondent_did) (
          field "proofHash" (str e.proof_hash) (
            field "delegationHash" (str e.delegation_hash) (
              field "description" (str e.description)
                (field "timestamp" (str e.timestamp) end)))))))

module _ (sha256 : String → String) where
  abbrev pub hash_object : Value → String
  hash_object v = sha256 (sorted_stringify v)

  unfoldable pub delegation_event : TaskDelegationData → Event
  delegation_event d = record {
    type = task_delegation;
    hash = hash_object (delegation_value d);
    metadata = field "type" (str "task_delegation") (
        field "taskType" (str d.task_type)
          (field "participants" (two_items d.requestor_did d.executor_did) end));
    participants = d.requestor_did ∷ d.executor_did ∷ [];
    description = text (
        "Task \"" ∷ d.task_type ∷ "\" delegated from " ∷ d.requestor_did ∷ " to " ∷ d.executor_did
        ∷ []);
    timestamp = d.timestamp;
  }

  unfoldable pub proof_event : ProofBundle → Event
  proof_event p = record {
    type = execution_proof;
    hash = sha256 (text (p.proof_id ∷ ":" ∷ p.trace_root ∷ ":" ∷ p.executor ∷ []));
    metadata = field "type" (str "execution_proof") (
        field "proof_id" (str p.proof_id) (
          field "trace_root" (str p.trace_root)
            (field "executor" (str p.executor) (field "trace_length" (num p.trace_length) end))));
    participants = p.executor ∷ [];
    description = text (
        "Execution proof "
        ∷ p.proof_id
        ∷ " by "
        ∷ p.executor
        ∷ " ("
        ∷ decimal p.trace_length
        ∷ " events)"
        ∷ []);
    timestamp = p.created_at;
  }

  unfoldable pub score_event : TrustScoreSnapshot → Event
  score_event s = record {
    type = trust_score;
    hash = hash_object (snapshot_value s);
    metadata = field "type" (str "trust_score") (
        field "agentDid" (str s.agent_did)
          (field "score" (num s.score) (option_field "previousHash" s.previous_hash end)));
    participants = s.agent_did ∷ [];
    description = text (
        "Trust score "
        ∷ decimal s.score
        ∷ " for "
        ∷ s.agent_did
        ∷ " ("
        ∷ decimal s.completed_tasks
        ∷ " completed, "
        ∷ decimal s.failed_tasks
        ∷ " failed)"
        ∷ []);
    timestamp = s.timestamp;
  }

  unfoldable pub evidence_event : DisputeEvidence → Event
  evidence_event e = record {
    type = dispute_evidence;
    hash = hash_object (evidence_value e);
    metadata = field "type" (str "dispute_evidence") (field "disputeId" (str e.dispute_id) end);
    participants = e.complainant_did ∷ e.respondent_did ∷ [];
    description =
        text
          ("Dispute " ∷ e.dispute_id ∷ ": " ∷ e.complainant_did ∷ " vs " ∷ e.respondent_did ∷ []);
    timestamp = e.timestamp;
  }

  -- `now` is the time that the call reads
  unfoldable pub rotation_event : String → String → ℕ → String → Event
  rotation_event now agent_did rotation_seq new_public_key_hash = record {
    type = key_rotation;
    hash = hash_object (
        obj (
          field "type" (str "key_rotation") (
            field "agentDid" (str agent_did) (
              field "rotationSeq" (num rotation_seq) (
                field "newPublicKeyHash" (str new_public_key_hash)
                  (field "timestamp" (str now) end))))));
    metadata =
        field "type" (str "key_rotation")
          (field "agentDid" (str agent_did) (field "rotationSeq" (num rotation_seq) end));
    participants = agent_did ∷ [];
    description = text ("Key rotation #" ∷ decimal rotation_seq ∷ " for " ∷ agent_did ∷ []);
    timestamp = now;
  }

module _ (host : Host) (ciphers : Ciphers) where
  open host use {sha256}

  unfoldable pub handshake_event : Session host ciphers → Event
  handshake_event s = record {
    type = handshake;
    hash = hash_object sha256 (
        obj (
          field "type" (str "handshake") (
            field "sessionId" (str s.session_id) (
              field "localDid" (str s.local_did) (
                field "remoteDid" (str s.remote_did) (
                  field "encrypted" (bool s.encrypted)
                    (field "createdAt" (str s.created_at) end)))))));
    metadata =
        field "type" (str "handshake")
          (field "participants" (two_items s.local_did s.remote_did) end);
    participants = s.local_did ∷ s.remote_did ∷ [];
    description = text ("Handshake between " ∷ s.local_did ∷ " and " ∷ s.remote_did ∷ []);
    timestamp = s.created_at;
  }
