-- ===== src/Proof/Sound.antt =====
-- What a valid report of `ProofVerifier.verify` of src/proof/index.ts means.
use atel_sdk.Base.{
  String, ◌≡◌, refl, true, Option, none, some, List, [], map, ok, err, Result, every_of, includes,
  eq_iff, arith, length,
}
use atel_sdk.Json.{str}
use atel_sdk.Identity.{Host, verify}
use atel_sdk.Merkle.{MerkleError, make_tree, get_root}
use atel_sdk.Trace.{Trace, genesis_prev}
use atel_sdk.Trace.Verify.{verify_chain}
use atel_sdk.Trace.Chain.{IsLinked, verify_chain_iff}
use atel_sdk.Proof.{ProofBundle, signing_text}
use atel_sdk.Proof.Verifier.{
  resolve_executor_public_key, root_matches, check_bundle_signature, check_merkle_root,
  check_checkpoints, check_references, trace_checks, verify_proof, report_valid,
}

module _ (host : Host) where
  open host use {Bytes, sha256}

  signature_sound :
      (p : ProofBundle) (key : Option Bytes)
      → check_bundle_signature host p key ≡ true
      → (pk : Bytes) × (key ≡ some pk) × (verify host (str (signing_text p)) p.sig pk ≡ ok true)
  unfolding check_bundle_signature
  signature_sound p none h = ground arith
  signature_sound p (some pk) h = (pk, refl, ground arith)

  root_matches_sound :
      (root : String) (r : Result MerkleError (List (List String)))
      → root_matches root r ≡ true
      → (tree : List (List String)) × (r ≡ ok tree) × (get_root tree ≡ root)
  root_matches_sound root (ok tree) h = (tree, refl, (eq_iff (get_root tree) root).0 h)
  root_matches_sound root (err e) h = ground arith

  -- The single checks of a valid report.
  report_valid-checks :
      (p : ProofBundle) (t : Trace host) (given : Option String)
      → report_valid (verify_proof host p (some t) given) ≡ true
      → (verify_chain host t ≡ ok [])
        × (check_merkle_root host p t ≡ true)
        × (check_checkpoints host p (some t) (resolve_executor_public_key host p given) ≡ ok true)
        × (check_bundle_signature host p (resolve_executor_public_key host p given) ≡ true)
        × (check_references p ≡ true)
        × (length t.events ≡ p.trace_length)
  unfolding verify_proof trace_checks
  report_valid-checks p t given h = ground arith

  checkpoints_sound :
      (p : ProofBundle) (t : Trace host) (key : Option Bytes)
      → check_checkpoints host p (some t) key ≡ ok true
      → every_of (λ c. includes (map (λ e. e.hash) t.events) c.hash) p.checkpoints ≡ true
  unfolding check_checkpoints
  checkpoints_sound p t key h = ground arith

  -- A valid report over a trace means that the bundle is signed under the executor's key, that the
  -- trace's chain is linked from the genesis value and has as many events as the bundle says, that the
  -- bundle's root is the Merkle root of their hashes, and that every checkpoint of the bundle is the
  -- hash of one of them.
  pub report_valid_sound :
      (p : ProofBundle) (t : Trace host) (given : Option String)
      → report_valid (verify_proof host p (some t) given) ≡ true
      → (pk : Bytes) × (resolve_executor_public_key host p given ≡ some pk)
        × (verify host (str (signing_text p)) p.sig pk ≡ ok true)
        × IsLinked host t.identity genesis_prev t.events
        × (length t.events ≡ p.trace_length)
        × ((tree : List (List String)) × (make_tree sha256 (map (λ e. e.hash) t.events) ≡ ok tree)
            × (get_root tree ≡ p.trace_root))
        × (every_of (λ c. includes (map (λ e. e.hash) t.events) c.hash) p.checkpoints ≡ true)
  unfolding check_merkle_root
  report_valid_sound p t given h =
      let (chain, root, cp, signature, refs, long) = report_valid-checks p t given h in
      let (pk, key, signed) = signature_sound p _ signature in
      (
        pk,
        key,
        signed,
        (verify_chain_iff host t).0 chain,
        long,
        root_matches_sound p.trace_root _ root,
        checkpoints_sound p t _ cp,
      )
