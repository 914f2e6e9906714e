-- ===== src/Proof/Checks.antt =====
-- The parts of a bundle that `_buildBundle` of src/proof/index.ts made.
use atel_sdk.Base.{
  String, map_err, map_err-eq-ok, ◌≡◌, refl, subst, List, ok, map, length, arith, >>=-eq-ok, Bool,
}
use atel_sdk.Json.{str}
use atel_sdk.Identity.{Host, AgentIdentity, sign}
use atel_sdk.Merkle.{make_tree, get_root}
use atel_sdk.Trace.{Trace}
use atel_sdk.Trace.Verify.{verify_chain}
use atel_sdk.Proof.{
  ProofBundle, build_bundle, signing_text, extract_checkpoints, identity_error, is_nil, sign_bundle,
  unsigned_bundle,
}

-- What the fields of a bundle say of the trace and the identity it was made from.
module _ (host : Host) where
  open host use {sha256}

  pub record IsBuilt (trace : Trace host) (identity : AgentIdentity host)
      (policy_ref consent_ref result_ref : String) (p : ProofBundle) : Type 0 where
    pub tree : List (List String)
    pub made : make_tree sha256 (map (λ e. e.hash) trace.events) ≡ ok tree
    pub root : p.trace_root ≡ get_root tree
    pub executor : p.executor ≡ identity.did
    pub alg : p.alg ≡ "Ed25519"
    pub trace_length : p.trace_length ≡ length trace.events
    pub checkpoints : p.checkpoints ≡ extract_checkpoints trace.events
    pub policy : p.policy_ref ≡ policy_ref
    pub consent : p.consent_ref ≡ consent_ref
    pub result : p.result_ref ≡ result_ref
    pub signed : sign host (str (signing_text p)) identity.secret_key ≡ ok p.sig

  sign_bundle-eq-ok :
      (identity : AgentIdentity host) (b p : ProofBundle)
      → sign_bundle host identity b ≡ ok p
      → (s : String) × (record b { sig = s } ≡ p)
        × (sign host (str (signing_text b)) identity.secret_key ≡ ok s)
  unfolding sign_bundle
  sign_bundle-eq-ok identity b p h = ground arith

  build_bundle-eq-ok :
      (proof_id created_at : String) (trace : Trace host) (identity : AgentIdentity host)
      (policy_ref consent_ref result_ref : String) (p : ProofBundle)
      → build_bundle host proof_id created_at trace identity policy_ref consent_ref result_ref
        ≡ ok p
      → (tree : List (List String)) × (valid : Bool) × (make_tree sha256
            (map (λ e. e.hash) trace.events)
          ≡ ok tree)
        × (sign_bundle host identity (
              unsigned_bundle host proof_id created_at trace identity policy_ref consent_ref
                result_ref
                (get_root tree)
                valid)
            ≡ ok p)
  unfolding build_bundle
  build_bundle-eq-ok proof_id created_at trace identity policy_ref consent_ref result_ref p h =
      let (tree, made, h') =
        >>=-eq-ok (map_err _ (make_tree sha256 (map (λ e. e.hash) trace.events))) _ h in
      let (errors, _, h'') = >>=-eq-ok (map_err identity_error (verify_chain host trace)) _ h' in
      (tree, is_nil errors, map_err-eq-ok _ _ made, h'')

  pub build_bundle-IsBuilt :
      (proof_id created_at : String) (trace : Trace host) (identity : AgentIdentity host)
      (policy_ref consent_ref result_ref : String) (p : ProofBundle)
      → build_bundle host proof_id created_at trace identity policy_ref consent_ref result_ref
        ≡ ok p
      → IsBuilt trace identity policy_ref consent_ref result_ref p
  unfolding unsigned_bundle signing_text
  build_bundle-IsBuilt proof_id created_at trace identity policy_ref consent_ref result_ref p h =
      let (tree, valid, made, h') =
        build_bundle-eq-ok proof_id created_at trace identity policy_ref consent_ref result_ref p
          h in
      let (s, whole, signed) = sign_bundle-eq-ok identity _ p h' in
      subst (IsBuilt trace identity policy_ref consent_ref result_ref) whole (record {
        tree = tree;
        made = made;
        root = refl;
        executor = refl;
        alg = refl;
        trace_length = refl;
        checkpoints = refl;
        policy = refl;
        consent = refl;
        result = refl;
        signed = signed;
      })
