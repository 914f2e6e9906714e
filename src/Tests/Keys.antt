-- ===== src/Tests/Keys.antt =====
-- The theorems on identities at the toy host.
use atel_sdk.Base.{◌≡◌, refl, ok, concat}
use atel_sdk.Identity.{KeyRotationProof, create_did, parse_did, sign, rotate_key, new_identity}
use atel_sdk.Identity.Did.{parse_did_legacy}
use atel_sdk.Tests.{toy, toy_identity, letters}
use atel_sdk.Tests.Values.{one_way}

parse_did_legacy_example : parse_did toy (concat "did:atel:" (letters 32)) ≡ ok 32
parse_did_legacy_example = parse_did_legacy toy 32 refl

signed : sign toy one_way 64 ≡ ok (letters 64)
unfolding sign
signed = refl

abbrev rotation_proof : KeyRotationProof toy
rotation_proof = record {
  old_did = toy_identity.did;
  new_did = toy_identity.did;
  new_public_key = letters 32;
  timestamp = "2026-01-01";
  old_signature = letters 64;
  new_signature = letters 64;
}

rotated : rotate_key toy toy_identity 32 64 "2026-01-01" ≡ ok (toy_identity, rotation_proof)
unfolding rotate_key sign new_identity create_did
rotated = refl
