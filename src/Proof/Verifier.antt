-- ===== src/Proof/Verifier.antt =====
-- ProofVerifier of src/proof/index.ts. A report is the list of its checks with their results; the texts that
-- explain them are left out.
use atel_sdk.Base.{
  String, Bool, true, false, ◌&&◌, Option, none, some, List, [], ◌∷◌, map, Result, ok, err, ◌>>=◌,
  or_else, eqb, ◌==◌, truthy, length, every_of, includes, if◌then◌else◌,
}
use atel_sdk.Json.{str}
use atel_sdk.Identity.{Host, IdentityError, verify, parse_did}
use atel_sdk.Merkle.{MerkleError, make_tree, get_root}
use atel_sdk.Trace.{Trace}
use atel_sdk.Trace.Verify.{verify_chain}
use atel_sdk.Proof.{Checkpoint, ProofBundle, signing_text, is_nil}

pub data CheckName : Type 0 where
  structure bundle_signature trace_hash_chain merkle_root checkpoints_check references
        trace_length_check :
      CheckName

pub record Check : Type 0 where
  pub name : CheckName
  pub passed : Bool

abbrev pub root_matches : String → Result MerkleError (List (List String)) → Bool
root_matches root (ok tree) = get_root tree == root
root_matches root (err e) = false

unfoldable pub check_references : ProofBundle → Bool
check_references p = truthy p.policy_ref && truthy p.consent_ref && truthy p.result_ref

module _ (host : Host) where
  open host use {Bytes, size, base64_decode, sha256}

  unfoldable pub resolve_executor_public_key : ProofBundle → Option String → Option Bytes
  resolve_executor_public_key proof given =
      let from_did = or_else (parse_did host proof.executor >>= λ key. ok (some key)) none in
      elim given [
        | none ↦ from_did
        | some text ↦
            let key = base64_decode text in
            if truthy text then (if eqb (size key) 32 then some key else none) else from_did
      ]

  unfoldable pub check_bundle_signature : ProofBundle → Option Bytes → Bool
  check_bundle_signature proof key = truthy proof.sig && (proof.alg == "Ed25519") && (elim key [
    | none ↦ false
    | some pk ↦ or_else (verify host (str (signing_text proof)) proof.sig pk) false
  ])

  unfoldable pub check_merkle_root : ProofBundle → Trace host → Bool
  check_merkle_root proof trace =
      root_matches proof.trace_root (make_tree sha256 (map (λ e. e.hash) trace.events))

  -- The loop over the checkpoints of a bundle; a throw of `verify` is a throw of the whole.
  unfoldable pub signed_checkpoints : List Checkpoint → Option Bytes → Result IdentityError Bool
  signed_checkpoints [] key = ok true
  signed_checkpoints (c ∷ cs) key =
      let rest = signed_checkpoints cs key in
      if truthy c.hash && truthy c.sig
      then elim key [
        | none ↦ ok false
        | some pk ↦ verify host (str c.hash) c.sig pk >>= λ valid. if valid then rest else ok false
      ]
      else ok false

  unfoldable pub check_checkpoints :
      ProofBundle → Option (Trace host) → Option Bytes → Result IdentityError Bool
  check_checkpoints proof trace key = do
    signed ← signed_checkpoints proof.checkpoints key
    ok (
        signed && (elim trace [
          | none ↦ true
          | some t ↦ every_of (λ c. includes (map (λ e. e.hash) t.events) c.hash) proof.checkpoints
        ]))

  -- The checks that are made only when the caller gives a trace; without one the first two pass.
  unfoldable pub trace_checks :
      ProofBundle → Option (Trace host) → Option Bytes → Result IdentityError (List Check)
  trace_checks proof none key = do
    cp ← check_checkpoints proof none key
    ok (
        record { name = trace_hash_chain; passed = true }
        ∷ record { name = merkle_root; passed = true }
        ∷ record { name = checkpoints_check; passed = cp }
        ∷ record { name = references; passed = check_references proof }
        ∷ [])
  trace_checks proof (some trace) key = do
    errors ← verify_chain host trace
    cp ← check_checkpoints proof (some trace) key
    ok (
        record { name = trace_hash_chain; passed = is_nil errors }
        ∷ record { name = merkle_root; passed = check_merkle_root proof trace }
        ∷ record { name = checkpoints_check; passed = cp }
        ∷ record { name = references; passed = check_references proof }
        ∷ record {
          name = trace_length_check;
          passed = eqb (length trace.events) proof.trace_length;
        }
        ∷ [])

  -- ProofVerifier.verify. A bundle of this type has every field, so its structure passes.
  unfoldable pub verify_proof :
      ProofBundle → Option (Trace host) → Option String → Result IdentityError (List Check)
  verify_proof proof trace given = do
    let key = resolve_executor_public_key proof given
    checks ← trace_checks proof trace key
    ok (
        record { name = structure; passed = true }
        ∷ record { name = bundle_signature; passed = check_bundle_signature proof key }
        ∷ checks)

-- The report's `valid`; a throw gives no report.
abbrev pub report_valid : Result IdentityError (List Check) → Bool
report_valid (ok checks) = every_of (λ c. c.passed) checks
report_valid (err e) = false
