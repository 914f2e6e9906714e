-- ===== src/Collaboration.antt =====
-- CollaborationAnchor of src/collaboration/index.ts over the anchor manager. The six anchor functions make their
-- events, and each then does the same. A detail that is missing stands for the text by default.
pub mod Events
pub mod Verified
use atel_sdk.Base.{
  ℕ, String, Bool, true, false, Option, none, some, List, [], ◌∷◌, ◌++◌, Result, ok, err, filter,
  includes, ◌==◌,
}
use atel_sdk.Json.{Fields}
use atel_sdk.Anchor.{
  AnchorRecord, AnchorVerification, Detail, AnchorProvider, AnchorError, AnchorManager, anchor,
  verify,
}

pub data CollaborationAnchorType : Type 0 where
  handshake task_delegation execution_proof trust_score dispute_evidence key_rotation :
      CollaborationAnchorType

pub record CollaborationAnchorRecord : Type 0 where
  pub type : CollaborationAnchorType
  pub hash : String
  pub anchor : AnchorRecord
  pub participants : List String
  pub description : String
  pub event_timestamp : String

pub record TaskDelegationData : Type 0 where
  pub requestor_did : String
  pub executor_did : String
  pub task_type : String
  pub consent_hash : String
  pub policy_hash : String
  pub timestamp : String
  pub terms_hash : Option String

pub record TrustScoreSnapshot : Type 0 where
  pub agent_did : String
  pub score : ℕ
  pub completed_tasks : ℕ
  pub failed_tasks : ℕ
  pub timestamp : String
  pub previous_hash : Option String

pub record DisputeEvidence : Type 0 where
  pub dispute_id : String
  pub complainant_did : String
  pub respondent_did : String
  pub proof_hash : String
  pub delegation_hash : String
  pub description : String
  pub timestamp : String

abbrev pub same_type : CollaborationAnchorType → CollaborationAnchorType → Bool
same_type handshake handshake = true
same_type task_delegation task_delegation = true
same_type execution_proof execution_proof = true
same_type trust_score trust_score = true
same_type dispute_evidence dispute_evidence = true
same_type key_rotation key_rotation = true
same_type _ _ = false

-- What an event hands to the manager and keeps in its record.
pub record Event : Type 0 where
  pub type : CollaborationAnchorType
  pub hash : String
  pub metadata : Fields
  pub participants : List String
  pub description : String
  pub timestamp : String

module _ (interface : AnchorProvider) where
  open interface use {Draw}

  pub record CollaborationAnchor : Type 0 where
    pub anchor_manager : AnchorManager interface
    pub default_chain : String
    pub records : List CollaborationAnchorRecord

  abbrev pub or_default : Option String → String → String
  or_default none default = default
  or_default (some chain) default = chain

  abbrev pub record_of : Event → AnchorRecord → CollaborationAnchorRecord
  record_of e a = record {
    type = e.type;
    hash = e.hash;
    anchor = a;
    participants = e.participants;
    description = e.description;
    event_timestamp = e.timestamp;
  }

  abbrev pub keep_event :
      Event
      → CollaborationAnchor
      → Result AnchorError AnchorRecord × AnchorManager interface
      → Result AnchorError CollaborationAnchorRecord × CollaborationAnchor
  keep_event e c (err error, g) = (err error, record c { anchor_manager = g })
  keep_event e c (ok a, g) = (
    ok (record_of e a),
    record c { anchor_manager = g; records = c.records ++ record_of e a ∷ [] },
  )

  -- What each of the six anchor functions does with its event.
  unfoldable pub anchor_event :
      Draw
      → Event
      → Option String
      → CollaborationAnchor
      → Result AnchorError CollaborationAnchorRecord × CollaborationAnchor
  anchor_event d e chain c = keep_event e c (
      anchor interface d e.hash (or_default chain c.default_chain) (some e.metadata)
        c.anchor_manager)

  unfoldable pub get_records_by_type :
      CollaborationAnchorType → CollaborationAnchor → List CollaborationAnchorRecord
  get_records_by_type type c = filter (λ r. same_type r.type type) c.records

  unfoldable pub get_records_by_participant :
      String → CollaborationAnchor → List CollaborationAnchorRecord
  get_records_by_participant did c = filter (λ r. includes r.participants did) c.records

  pub data AnchorCheck : Type 0 where
    checked : Bool → Option Detail → AnchorCheck
    verification_error : AnchorError → AnchorCheck

  abbrev pub check_of : Result AnchorError AnchorVerification → AnchorCheck
  check_of (ok v) = checked v.valid v.detail
  check_of (err error) = verification_error error

  unfoldable pub verify_anchor : CollaborationAnchorRecord → CollaborationAnchor → AnchorCheck
  verify_anchor r c =
      check_of (verify interface r.hash r.anchor.tx_hash r.anchor.chain c.anchor_manager)
