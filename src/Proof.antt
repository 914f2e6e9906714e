-- ===== src/Proof.antt =====
-- Proof bundles of src/proof/index.ts and ProofGenerator, which makes them. ProofVerifier is in Verifier.
pub mod Verifier
pub mod Checks
pub mod Complete
pub mod Sound
use atel_sdk.Base.{
  ℕ, String, Bool, true, false, not, ◌&&◌, Option, none, some, List, [], ◌∷◌, ◌++◌, map, Result, ok,
  err, ◌>>=◌, map_err, or_else, is_ok, eqb, ◌==◌, truthy, length, filter, every_of, includes,
  if◌then◌else◌,
}
use atel_sdk.Json.{
  Value, Fields, str, num, arr, obj, Items, nil, cons, end, field, sorted_stringify,
}
use atel_sdk.Json.Text.{decimal}
use atel_sdk.Identity.{Host, IdentityError, AgentIdentity, sign, verify, parse_did}
use atel_sdk.Merkle.{MerkleError, make_tree, get_root}
use atel_sdk.Trace.{TraceEvent, Trace, is_checkpoint, has_sig, sig_text}
use atel_sdk.Trace.Verify.{ChainError, verify_chain}

pub record Checkpoint : Type 0 where
  pub seq : ℕ
  pub hash : String
  pub sig : String

pub record Attestation : Type 0 where
  pub type : String
  pub value : String

pub record ProofBundle : Type 0 where
  pub proof_id : String
  pub version : String
  pub executor : String
  pub task_id : String
  pub trace_root : String
  pub trace_length : ℕ
  pub checkpoints : List Checkpoint
  pub policy_ref : String
  pub consent_ref : String
  pub result_ref : String
  pub attestations : List Attestation
  pub created_at : String
  pub alg : String
  pub sig : String

pub data ProofError : Type 0 where
  empty_trace : ProofError
  merkle : MerkleError → ProofError
  identity_error : IdentityError → ProofError

abbrev pub checkpoint_items : List Checkpoint → Items
checkpoint_items [] = nil
checkpoint_items (c ∷ cs) =
    cons (obj (field "seq" (num c.seq) (field "hash" (str c.hash) (field "sig" (str c.sig) end))))
      (checkpoint_items cs)

abbrev pub attestation_items : List Attestation → Items
attestation_items [] = nil
attestation_items (a ∷ rest) =
    cons (obj (field "type" (str a.type) (field "value" (str a.value) end)))
      (attestation_items rest)

-- The text that is signed: the bundle without its signature.
unfoldable pub signing_text : ProofBundle → String
signing_text p = sorted_stringify (
    obj (
      field "proof_id" (str p.proof_id) (
        field "version" (str p.version) (
          field "executor" (str p.executor) (
            field "task_id" (str p.task_id) (
              field "trace_root" (str p.trace_root) (
                field "trace_length" (num p.trace_length) (
                  field "checkpoints" (arr (checkpoint_items p.checkpoints)) (
                    field "policy_ref" (str p.policy_ref) (
                      field "consent_ref" (str p.consent_ref) (
                        field "result_ref" (str p.result_ref) (
                          field "attestations" (arr (attestation_items p.attestations))
                            (field "created_at" (str p.created_at) end)))))))))))))

abbrev pub checkpoint_of : TraceEvent → Checkpoint
checkpoint_of e = record { seq = e.seq; hash = e.hash; sig = sig_text e.sig }

abbrev pub is_signed_checkpoint : TraceEvent → Bool
is_signed_checkpoint e = is_checkpoint e.type && has_sig e.sig

-- The events that are checkpoints with a signature.
abbrev pub extract_checkpoints : List TraceEvent → List Checkpoint
extract_checkpoints events = map checkpoint_of (filter is_signed_checkpoint events)

abbrev pub bool_string : Bool → String
bool_string true = "true"
bool_string false = "false"

abbrev pub is_nil {ℓ} : {A : Type ℓ} → List A → Bool
is_nil [] = true
is_nil (x ∷ xs) = false

abbrev pub get_field : String → Fields → Option Value
get_field k end = none
get_field k (field j v fs) = if j == k then some v else get_field k fs

module _ (host : Host) where
  open host use {Bytes, size, base64_decode, sha256}

  unfoldable pub attestations_of : Trace host → Bool → List Attestation
  attestations_of trace valid =
      record { type = "trace_verified"; value = bool_string valid }
      ∷ record { type = "event_count"; value = decimal (length trace.events) }
      ∷ (if trace.finalized then record { type = "finalized"; value = "true" } ∷ [] else [])

  -- The bundle with the tree's root, and an empty signature.
  unfoldable pub unsigned_bundle :
      String
      → String
      → Trace host
      → AgentIdentity host
      → String
      → String
      → String
      → String
      → Bool
      → ProofBundle
  unsigned_bundle proof_id created_at trace identity policy_ref consent_ref result_ref root valid =
      record {
        proof_id = proof_id;
        version = "proof.bundle.v0.1";
        executor = identity.did;
        task_id = trace.task_id;
        trace_root = root;
        trace_length = length trace.events;
        checkpoints = extract_checkpoints trace.events;
        policy_ref = policy_ref;
        consent_ref = consent_ref;
        result_ref = result_ref;
        attestations = attestations_of trace valid;
        created_at = created_at;
        alg = "Ed25519";
        sig = "";
      }

  unfoldable pub sign_bundle : AgentIdentity host → ProofBundle → Result ProofError ProofBundle
  sign_bundle identity unsigned = do
    sig ← map_err identity_error (sign host (str (signing_text unsigned)) identity.secret_key)
    ok (record unsigned { sig = sig })

  -- _buildBundle, with the identifier and the time that it draws
  unfoldable pub build_bundle :
      String
      → String
      → Trace host
      → AgentIdentity host
      → String
      → String
      → String
      → Result ProofError ProofBundle
  build_bundle proof_id created_at trace identity policy_ref consent_ref result_ref = do
    tree ← map_err (λ _. empty_trace) (make_tree sha256 (map (λ e. e.hash) trace.events))
    errors ← map_err identity_error (verify_chain host trace)
    sign_bundle identity (
        unsigned_bundle proof_id created_at trace identity policy_ref consent_ref result_ref
          (get_root tree) (is_nil errors))

  -- The scopes of a consent token, or the whole of a value without them.
  unfoldable pub policy_part : Value → Value
  policy_part (obj fs) = elim (get_field "scopes" fs) [ none ↦ obj fs | some scopes ↦ scopes ]
  policy_part v = v

  unfoldable pub generate_from_context :
      String
      → String
      → Trace host
      → AgentIdentity host
      → Value
      → Value
      → Result ProofError ProofBundle
  generate_from_context proof_id created_at trace identity consent_token task_result =
      build_bundle proof_id created_at trace identity
        (sha256 (sorted_stringify (policy_part consent_token)))
        (sha256 (sorted_stringify consent_token)) (sha256 (sorted_stringify task_result))
