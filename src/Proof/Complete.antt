-- ===== src/Proof/Complete.antt =====
-- `ProofVerifier.verify` of src/proof/index.ts on what `ProofGenerator` makes.
use atel_sdk.Base.{
  ◌⊎◌, String, ◌≡◌, refl, ◌∙◌, subst, ap, Bool, true, Option, none, some, List, [], ◌∷◌, map, ok,
  filter, every_of, includes, truthy, eq_refl, arith, inl, inr,
}
use atel_sdk.Json.{str}
use atel_sdk.Json.Canonical.{same}
use atel_sdk.Identity.{Host, AgentIdentity, sign, verify}
use atel_sdk.Identity.Did.{parse_did-create_did}
use atel_sdk.Identity.Signing.{sign-eq-ok, verify-sign}
use atel_sdk.Identity.Rotation.{IsSound}
use atel_sdk.Trace.{TraceEvent, Trace, has_sig, sig_text, compute_event_hash, genesis_prev}
use atel_sdk.Trace.Chain.{IsLinked, verify_chain_iff}
use atel_sdk.Trace.Steps.{IsIntact}
use atel_sdk.Proof.{
  ProofBundle, build_bundle, signing_text, checkpoint_of, is_signed_checkpoint, extract_checkpoints,
}
use atel_sdk.Proof.Verifier.{
  resolve_executor_public_key, check_bundle_signature, check_merkle_root, signed_checkpoints,
  check_checkpoints, check_references, trace_checks, verify_proof, report_valid,
}
use atel_sdk.Proof.Checks.{IsBuilt, build_bundle-IsBuilt}

every_of-includes :
    (es : List TraceEvent) (hashes : List String)
    → every_of (λ c. includes hashes c.hash) (map checkpoint_of es)
      ≡ every_of (λ e. includes hashes e.hash) es
every_of-includes [] hashes = refl
every_of-includes (e ∷ es) hashes = rw (every_of-includes es hashes)

every_of-filter {ℓ} :
    {A : Type ℓ} (p q : A → Bool) (xs : List A)
    → every_of p xs ≡ true
    → every_of p (filter q xs) ≡ true
every_of-filter p q [] h = h
every_of-filter p q (x ∷ xs) h = ground (arith, every_of-filter p q xs)

every_of-weaken {ℓ} :
    {A : Type ℓ} (p q : A → Bool) (xs : List A)
    → ((x : A) → p x ≡ true → q x ≡ true)
    → every_of p xs ≡ true
    → every_of q xs ≡ true
every_of-weaken p q [] h k = k
every_of-weaken p q (x ∷ xs) h k = ground (arith, h x, every_of-weaken p q xs h)

hashes-included :
    (es : List TraceEvent) → every_of (λ e. includes (map (λ x. x.hash) es) e.hash) es ≡ true
hashes-included [] = refl
hashes-included (e ∷ es) =
    rw (eq_refl e.hash) (every_of-weaken _ _ es (λ x h. ground (arith, h)) (hashes-included es))

extracted-included :
    (es : List TraceEvent)
    → every_of (λ c. includes (map (λ e. e.hash) es) c.hash) (extract_checkpoints es) ≡ true
extracted-included es =
    every_of-includes (filter is_signed_checkpoint es) (map (λ e. e.hash) es)
    ∙ every_of-filter (λ e. includes (map (λ x. x.hash) es) e.hash) is_signed_checkpoint es
        (hashes-included es)

module _ (host : Host) where
  open host use {
    size, sha256, truthy-base64, truthy-sha256, size-sign_detached, sign_detached, base64_encode,
  }

  resolved :
      (a : AgentIdentity host) (p : ProofBundle)
      → IsSound host a
      → p.executor ≡ a.did
      → resolve_executor_public_key host p none ≡ some a.public_key
  unfolding resolve_executor_public_key
  resolved a p h k = rw (k, parse_did-create_did host a.public_key a.did h.named)

  sign-truthy :
      (m signature : String) (a : AgentIdentity host)
      → sign host (str m) a.secret_key ≡ ok signature
      → truthy signature ≡ true
  sign-truthy m signature a h =
      let (_, made) = sign-eq-ok host (str m) a.secret_key signature h in
      subst (λ s. truthy s ≡ true) made
        (truthy-base64 _ (omega (arith, size-sign_detached _ a.secret_key)))

  bundle_signature-passes :
      (a : AgentIdentity host) (p : ProofBundle)
      → IsSound host a
      → p.alg ≡ "Ed25519"
      → sign host (str (signing_text p)) a.secret_key ≡ ok p.sig
      → check_bundle_signature host p (some a.public_key) ≡ true
  unfolding check_bundle_signature
  bundle_signature-passes a p h alg signed =
      let valid : verify host (str (signing_text p)) p.sig a.public_key ≡ ok true =
        rw h.paired (verify-sign host _ _ a.secret_key p.sig (same _) signed) in
      simp (sign-truthy _ p.sig a signed, alg, valid)

  event_hash-truthy :
      (e : TraceEvent)
      → compute_event_hash host e.seq e.ts e.type e.payload e.prev ≡ e.hash
      → truthy e.hash ≡ true
  unfolding compute_event_hash
  event_hash-truthy e h = subst (λ s. truthy s ≡ true) h (truthy-sha256 _)

  has_sig-truthy : (s : Option String) → has_sig s ≡ true → truthy (sig_text s) ≡ true
  has_sig-truthy none h = ground arith
  has_sig-truthy (some s) h = h

  signed_checkpoints-linked :
      (a : AgentIdentity host) (prev : String) (es : List TraceEvent)
      → IsLinked host a prev es
      → signed_checkpoints host (extract_checkpoints es) (some a.public_key) ≡ ok true
  unfolding signed_checkpoints
  signed_checkpoints-linked a prev [] h = refl
  signed_checkpoints-linked a prev (e ∷ es) h =
      let rest = signed_checkpoints-linked a e.hash es h.3 in
      ground (arith, rest, h.2, event_hash-truthy e h.1, has_sig-truthy e.sig)

  merkle_root-passes :
      (t : Trace host) (a : AgentIdentity host) (policy consent result : String) (p : ProofBundle)
      → IsBuilt host t a policy consent result p
      → check_merkle_root host p t ≡ true
  unfolding check_merkle_root
  merkle_root-passes t a policy consent result p b = rw (b.made, b.root) (eq_refl _)

  checkpoints-pass :
      (t : Trace host) (p : ProofBundle) (traced : Option (Trace host))
      → IsIntact host t
      → p.checkpoints ≡ extract_checkpoints t.events
      → (traced ≡ none) ⊎ (traced ≡ some t)
      → check_checkpoints host p traced (some t.identity.public_key) ≡ ok true
  unfolding check_checkpoints
  checkpoints-pass t p traced h k (inl absent) =
      rw (absent, k, signed_checkpoints-linked t.identity genesis_prev t.events h.linked)
  checkpoints-pass t p traced h k (inr given) =
      rw (given, k, signed_checkpoints-linked t.identity genesis_prev t.events h.linked)
        (ap ok (extracted-included t.events))

  references-pass :
      (t : Trace host) (a : AgentIdentity host) (policy consent result : String) (p : ProofBundle)
      → IsBuilt host t a policy consent result p
      → truthy policy ≡ true
      → truthy consent ≡ true
      → truthy result ≡ true
      → check_references p ≡ true
  unfolding check_references
  references-pass t a policy consent result p b x y z = rw (b.policy, b.consent, b.result, x, y, z)

  -- A bundle that an intact trace's own identity generates with non-empty references passes every check,
  -- with the trace and without it, under the key that the bundle's DID carries.
  pub verify_proof-build_bundle :
      (proof_id created_at : String) (t : Trace host) (policy consent result : String)
      (p : ProofBundle)
      → IsIntact host t
      → truthy policy ≡ true
      → truthy consent ≡ true
      → truthy result ≡ true
      → build_bundle host proof_id created_at t t.identity policy consent result ≡ ok p
      → (report_valid (verify_proof host p (some t) none) ≡ true)
        × (report_valid (verify_proof host p none none) ≡ true)
  unfolding verify_proof trace_checks
  verify_proof-build_bundle proof_id created_at t policy consent result p h x y z built =
      let b =
        build_bundle-IsBuilt host proof_id created_at t t.identity policy consent result p built in
      let key = resolved t.identity p h.owner b.executor in
      let signature = bundle_signature-passes t.identity p h.owner b.alg b.signed in
      let chain = (verify_chain_iff host t).1 h.linked in
      let root = merkle_root-passes t t.identity policy consent result p b in
      let refs = references-pass t t.identity policy consent result p b x y z in
      let with = checkpoints-pass t p (some t) h b.checkpoints (inr refl) in
      let without = checkpoints-pass t p none h b.checkpoints (inl refl) in
      (
        rw (key, chain, with, signature, root, refs, b.trace_length) (ground arith),
        rw (key, without, signature, refs),
      )
