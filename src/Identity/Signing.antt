-- ===== src/Identity/Signing.antt =====
-- Signatures of src/identity/index.ts, also over a payload whose keys were reordered.
use atel_sdk.Base.{String, ◌≡◌, refl, true, some, ok, arith}
use atel_sdk.Json.{Value}
use atel_sdk.Json.Canonical.{SameValue, same, arrays, objects, serialize_payload-same}
use atel_sdk.Identity.{Host, message_text, sign, verify}

message_text-same : (v w : Value) → SameValue v w → message_text v ≡ message_text w
unfolding message_text
message_text-same _ _ (same v) = refl
message_text-same _ _ (arrays s) = serialize_payload-same _ _ (arrays s)
message_text-same _ _ (objects s) = serialize_payload-same _ _ (objects s)

module _ (host : Host) where
  open host use {
    Bytes, size, public_of, size-public_of, sign_detached, verify_detached, verify_sign,
    base64_encode, base64_decode, base64_round,
  }

  pub sign-eq-ok :
      (v : Value) (sk : Bytes) (signature : String)
      → sign host v sk ≡ ok signature
      → (size sk ≡ 64) × (base64_encode (sign_detached (message_text v) sk) ≡ signature)
  unfolding sign
  sign-eq-ok v sk signature h = ground arith

  pub sign-ok :
      (v : Value) (sk : Bytes)
      → size sk ≡ 64
      → sign host v sk ≡ ok (base64_encode (sign_detached (message_text v) sk))
  unfolding sign
  sign-ok v sk long = rw long refl

  verify_of_valid :
      (v : Value) (signature : String) (pk : Bytes)
      → size pk ≡ 32
      → verify_detached (message_text v) (base64_decode signature) pk ≡ some true
      → verify host v signature pk ≡ ok true
  unfolding verify
  verify_of_valid v signature pk h k = rw (h, k)

  -- What a secret key signs verifies under its public key, for every payload that differs from the
  -- signed one at most in the order of its keys.
  pub verify-sign :
      (signed received : Value) (sk : Bytes) (signature : String)
      → SameValue signed received
      → sign host signed sk ≡ ok signature
      → verify host received signature (public_of sk) ≡ ok true
  verify-sign signed received sk signature s h =
      let (long, made) = sign-eq-ok signed sk signature h in
      verify_of_valid received signature (public_of sk) (size-public_of sk long) (
        rw (← made, base64_round, ← message_text-same signed received s)
          (verify_sign (message_text signed) sk))
