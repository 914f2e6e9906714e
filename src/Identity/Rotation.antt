-- ===== src/Identity/Rotation.antt =====
-- Key rotation proofs of src/identity/index.ts.
use atel_sdk.Base.{String, ◌≡◌, refl, true, ok, arith, >>=-eq-ok, subst}
use atel_sdk.Json.{Value, str, serialize_payload}
use atel_sdk.Json.Canonical.{same}
use atel_sdk.Identity.{
  Host, AgentIdentity, KeyRotationProof, create_did, new_identity, rotation_data, rotate_key,
  verify_key_rotation, parse_did, sign, verify,
}
use atel_sdk.Identity.Did.{parse_did-create_did}
use atel_sdk.Identity.Signing.{verify-sign}

module _ (host : Host) where
  open host use {Bytes, public_of, base64_encode}

  -- An identity as the constructor makes it: its public key belongs to its secret key, and its DID
  -- to its public key.
  pub record IsSound (a : AgentIdentity host) : Type 0 where
    pub paired : a.public_key ≡ public_of a.secret_key
    pub named : create_did host a.public_key ≡ ok a.did

  abbrev signable : KeyRotationProof host → Value
  signable p =
      str (serialize_payload (rotation_data p.old_did p.new_did p.new_public_key p.timestamp))

  verify_of_signatures :
      (p : KeyRotationProof host) (old_key new_key : Bytes)
      → parse_did host p.old_did ≡ ok old_key
      → parse_did host p.new_did ≡ ok new_key
      → verify host (signable p) p.old_signature old_key ≡ ok true
      → verify host (signable p) p.new_signature new_key ≡ ok true
      → verify_key_rotation host p ≡ true
  unfolding verify_key_rotation
  verify_of_signatures p old_key new_key a b c d = rw (a, b, c, d)

  new_identity-IsSound :
      (id : String) (sk : Bytes) (a : AgentIdentity host)
      → new_identity host id (public_of sk) sk ≡ ok a
      → IsSound a × (a.agent_id ≡ id) × (a.secret_key ≡ sk)
  unfolding new_identity
  new_identity-IsSound id sk a h =
      let (did, made, e) = >>=-eq-ok (create_did host (public_of sk)) _ h in
      let e' : record { agent_id = id; public_key = public_of sk; secret_key = sk; did = did } ≡ a =
        cc e in
      subst (λ b. IsSound b × (b.agent_id ≡ id) × (b.secret_key ≡ sk)) e'
        (record { paired = refl; named = made }, refl, refl)

  rotation_parts :
      (old fresh : AgentIdentity host) (sk : Bytes) (timestamp : String) (p : KeyRotationProof host)
      → rotate_key host old (public_of sk) sk timestamp ≡ ok (fresh, p)
      → (new_identity host old.agent_id (public_of sk) sk ≡ ok fresh)
        × (p.old_did ≡ old.did)
        × (p.new_did ≡ fresh.did)
        × (sign host (signable p) old.secret_key ≡ ok p.old_signature)
        × (sign host (signable p) fresh.secret_key ≡ ok p.new_signature)
  unfolding rotate_key
  rotation_parts old fresh sk timestamp p rotated = ground arith

  -- Rotating to a proper key pair gives a proof that verifies, and a new identity that is sound and
  -- keeps the agent's identifier.
  pub verify_key_rotation-rotate_key :
      (old fresh : AgentIdentity host) (sk : Bytes) (timestamp : String)
      (proof : KeyRotationProof host)
      → IsSound old
      → rotate_key host old (public_of sk) sk timestamp ≡ ok (fresh, proof)
      → (verify_key_rotation host proof ≡ true) × IsSound fresh × (fresh.agent_id ≡ old.agent_id)
  verify_key_rotation-rotate_key old fresh sk timestamp proof sound rotated =
      let (made, old_did, new_did, signed_old, signed_new) =
        rotation_parts old fresh sk timestamp proof rotated in
      let (fresh_sound, id, secret) = new_identity-IsSound old.agent_id sk fresh made in
      (
        verify_of_signatures proof old.public_key fresh.public_key
            (rw old_did (parse_did-create_did host old.public_key old.did sound.named))
            (rw new_did (parse_did-create_did host fresh.public_key fresh.did fresh_sound.named))
            (rw sound.paired
              (verify-sign host _ _ old.secret_key _ (same (signable proof)) signed_old))
            (rw fresh_sound.paired
              (verify-sign host _ _ fresh.secret_key _ (same (signable proof)) signed_new)),
        fresh_sound,
        id,
      )
