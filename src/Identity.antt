-- ===== src/Identity.antt =====
-- src/identity/index.ts: key pairs, DIDs, signatures over deterministic JSON, and key rotation.
-- tweetnacl, bs58, Buffer's base64 and Node's sha256 are a `Host`; times and fresh identifiers are arguments.
pub mod Split
pub mod Did
pub mod Signing
pub mod Rotation
use atel_sdk.Base.{
  ℕ, ◌<◌, truthy, String, ◌≡◌, Bool, true, false, ◌&&◌, Option, none, some, List, [], ◌∷◌, Result,
  ok, err, ◌>>=◌, ◌>>◌, throw_if, or_else, concat, eqb, not, ◌==◌, if◌then◌else◌,
}
use atel_sdk.Json.{Value, str, obj, end, field, serialize_payload}
use Split.{split, HasNoColon}

-- What the SDK uses of its libraries. The laws are the documented ones: a detached signature
-- verifies under the public half of the key and has 64 bytes, both text codes round trip, bytes have
-- a text, and a hash is 64 characters.
pub record Host : Type 1 where
  pub Bytes : Type 0
  pub size : Bytes → ℕ
  pub sign_detached : String → Bytes → Bytes
  -- `none` is a throw, as on a signature of a wrong size
  pub verify_detached : String → Bytes → Bytes → Option Bool
  pub public_of : Bytes → Bytes
  pub base64_encode : Bytes → String
  pub base64_decode : String → Bytes
  pub sha256 : String → String
  pub base58_encode : Bytes → String
  pub base58_decode : String → Option Bytes
  pub verify_sign :
      (m : String) (sk : Bytes) → verify_detached m (sign_detached m sk) (public_of sk) ≡ some true
  pub size-public_of : (sk : Bytes) → size sk ≡ 64 → size (public_of sk) ≡ 32
  pub base64_round : (b : Bytes) → base64_decode (base64_encode b) ≡ b
  pub base58_round : (b : Bytes) → base58_decode (base58_encode b) ≡ some b
  pub base58_alphabet : (b : Bytes) → HasNoColon (base58_encode b)
  pub size-sign_detached : (m : String) (sk : Bytes) → size (sign_detached m sk) ≡ 64
  pub truthy-base64 : (b : Bytes) → 0 < size b → truthy (base64_encode b) ≡ true
  pub truthy-sha256 : (s : String) → truthy (sha256 s) ≡ true

pub data IdentityError : Type 0 where
  bad_public_key bad_secret_key bad_did bad_did_key undecodable_did : IdentityError

abbrev pub or_throw {ℓ} : {A : Type ℓ} → Option A → IdentityError → Result IdentityError A
or_throw none e = err e
or_throw (some a) e = ok a

-- The base58 part of the two forms `did:atel:ed25519:<key>` and `did:atel:<key>`.
unfoldable pub did_key_part : List String → Option String
did_key_part (a ∷ b ∷ c ∷ d ∷ []) =
    if a == "did" && b == "atel" && c == "ed25519" then some d else none
did_key_part (a ∷ b ∷ c ∷ []) = if a == "did" && b == "atel" then some c else none
did_key_part _ = none

-- A text is signed as it is, anything else as its deterministic JSON.
unfoldable pub message_text : Value → String
message_text (str s) = s
message_text v = serialize_payload v

unfoldable pub rotation_data : String → String → String → String → Value
rotation_data old_did new_did new_public_key timestamp = obj (
    field "oldDid" (str old_did) (
      field "newDid" (str new_did)
        (field "newPublicKey" (str new_public_key) (field "timestamp" (str timestamp) end))))

module _ (host : Host) where
  open host use {
    Bytes, size, sign_detached, verify_detached, base64_encode, base64_decode, base58_encode,
    base58_decode,
  }

  unfoldable pub create_did : Bytes → Result IdentityError String
  create_did public_key = do
    throw_if (not (eqb (size public_key) 32)) bad_public_key
    ok (concat "did:atel:ed25519:" (base58_encode public_key))

  unfoldable pub parse_did : String → Result IdentityError Bytes
  parse_did did = do
    part ← or_throw (did_key_part (split did)) bad_did
    decoded ← or_throw (base58_decode part) undecodable_did
    throw_if (not (eqb (size decoded) 32)) bad_did_key
    ok decoded

  unfoldable pub sign : Value → Bytes → Result IdentityError String
  sign payload secret_key = do
    throw_if (not (eqb (size secret_key) 64)) bad_secret_key
    ok (base64_encode (sign_detached (message_text payload) secret_key))

  -- A throw of the library inside the `try` counts as an invalid signature.
  unfoldable pub verify : Value → String → Bytes → Result IdentityError Bool
  verify payload signature public_key = do
    throw_if (not (eqb (size public_key) 32)) bad_public_key
    ok (elim (verify_detached (message_text payload) (base64_decode signature) public_key) [
      | none ↦ false
      | some valid ↦ valid
    ])

  pub record AgentIdentity : Type 0 where
    pub agent_id : String
    pub public_key : Bytes
    pub secret_key : Bytes
    pub did : String

  -- The constructor with a key pair; without one it draws a pair, which is then the argument.
  unfoldable pub new_identity : String → Bytes → Bytes → Result IdentityError AgentIdentity
  new_identity agent_id public_key secret_key = do
    did ← create_did public_key
    ok (record { agent_id = agent_id; public_key = public_key; secret_key = secret_key; did = did })

  pub record KeyRotationProof : Type 0 where
    pub old_did : String
    pub new_did : String
    pub new_public_key : String
    pub timestamp : String
    pub old_signature : String
    pub new_signature : String

  -- rotateKey, given the pair that `nacl.sign.keyPair` drew and the time
  unfoldable pub rotate_key :
      AgentIdentity
      → Bytes
      → Bytes
      → String
      → Result IdentityError (AgentIdentity × KeyRotationProof)
  rotate_key old public_key secret_key timestamp = do
    fresh ← new_identity old.agent_id public_key secret_key
    let signable =
        str
          (serialize_payload (rotation_data old.did fresh.did (base64_encode public_key) timestamp))
    old_signature ← sign signable old.secret_key
    new_signature ← sign signable fresh.secret_key
    ok (
      fresh,
      record {
        old_did = old.did;
        new_did = fresh.did;
        new_public_key = base64_encode public_key;
        timestamp = timestamp;
        old_signature = old_signature;
        new_signature = new_signature;
      },
    )

  unfoldable pub check_rotation : KeyRotationProof → Result IdentityError Bool
  check_rotation proof = do
    old_key ← parse_did proof.old_did
    new_key ← parse_did proof.new_did
    let signable = str (
        serialize_payload
          (rotation_data proof.old_did proof.new_did proof.new_public_key proof.timestamp))
    old_valid ← verify signable proof.old_signature old_key
    new_valid ← verify signable proof.new_signature new_key
    ok (old_valid && new_valid)

  unfoldable pub verify_key_rotation : KeyRotationProof → Bool
  unfolding check_rotation
  verify_key_rotation proof = or_else (check_rotation proof) false
