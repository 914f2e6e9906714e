-- ===== src/Crypto.antt =====
-- src/crypto/index.ts: encryption between two agents and the EncryptionManager. tweetnacl's box and
-- secretbox, the key derivation by sha256, base64 and UTF-8 are `Ciphers`; drawn keys, drawn nonces
-- and times are arguments. That replaced keys are overwritten with zeros is left out: no code reads them.
pub mod Sealed
use atel_sdk.Base.{
  truthy, ◌<◌, ℕ, suc, ◌+◌, String, ◌≡◌, Bool, true, false, not, Option, none, some, List, [], ◌∷◌,
  Result, ok, err, ◌>>=◌, ◌>>◌, throw_if, Map, lookup, insert, erase, is_some, eqb, ◌==◌,
}

-- The laws are the documented ones: both sides of a key exchange agree, public and derived keys have 32
-- bytes, bytes have a text, and what is sealed opens under the same key and nonce.
pub record Ciphers : Type 1 where
  pub Bytes : Type 0
  pub size : Bytes → ℕ
  pub box_public_of : Bytes → Bytes
  -- box.before, of a public and a secret key; `none` is the throw on keys of a wrong size
  pub before : Bytes → Bytes → Option Bytes
  pub kdf : Bytes → Bytes
  pub secretbox : Bytes → Bytes → Bytes → Bytes
  -- the outer `none` is the throw on a nonce of a wrong size, the inner one a failed authentication
  pub secretbox_open : Bytes → Bytes → Bytes → Option (Option Bytes)
  pub base64_encode : Bytes → String
  pub base64_decode : String → Bytes
  pub utf8_encode : String → Bytes
  pub utf8_decode : Bytes → String
  pub before_agrees :
      (a b : Bytes)
      → size a ≡ 32
      → size b ≡ 32
      → (raw : Bytes) × (before (box_public_of b) a ≡ some raw)
        × (before (box_public_of a) b ≡ some raw)
  pub size-box_public_of : (a : Bytes) → size a ≡ 32 → size (box_public_of a) ≡ 32
  pub truthy-base64 : (b : Bytes) → 0 < size b → truthy (base64_encode b) ≡ true
  pub size-kdf : (raw : Bytes) → size (kdf raw) ≡ 32
  pub open-secretbox :
      (message nonce key : Bytes)
      → size nonce ≡ 24
      → size key ≡ 32
      → secretbox_open (secretbox message nonce key) nonce key ≡ some (some message)
  pub base64_round : (b : Bytes) → base64_decode (base64_encode b) ≡ b
  pub utf8_round : (s : String) → utf8_decode (utf8_encode s) ≡ s

pub data CryptoError : Type 0 where
  invalid_key_length unsupported_version decryption_failed no_encryption_session library_error :
      CryptoError

pub record EncryptedPayload : Type 0 where
  pub enc : String
  pub ciphertext : String
  pub nonce : String

abbrev pub or_library_error {ℓ} : {A : Type ℓ} → Option A → Result CryptoError A
or_library_error none = err library_error
or_library_error (some a) = ok a

abbrev pub or_failed {ℓ} : {A : Type ℓ} → Option A → Result CryptoError A
or_failed none = err decryption_failed
or_failed (some a) = ok a

abbrev pub or_no_session {ℓ} : {A : Type ℓ} → Option A → Result CryptoError A
or_no_session none = err no_encryption_session
or_no_session (some session) = ok session

module _ (ciphers : Ciphers) where
  open ciphers use {
    Bytes, size, box_public_of, before, kdf, secretbox, secretbox_open, base64_encode,
    base64_decode, utf8_encode, utf8_decode,
  }

  pub record EncryptionKeyPair : Type 0 where
    pub public_key : Bytes
    pub secret_key : Bytes

  -- generateEncryptionKeyPair, of the secret key that it draws
  unfoldable pub generate_encryption_key_pair : Bytes → EncryptionKeyPair
  generate_encryption_key_pair secret = record {
    public_key = box_public_of secret;
    secret_key = secret;
  }

  unfoldable pub derive_shared_key : Bytes → Bytes → Result CryptoError Bytes
  derive_shared_key local_secret_key remote_public_key = do
    raw ← or_library_error (before remote_public_key local_secret_key)
    ok (kdf raw)

  unfoldable pub encrypt : Bytes → String → Bytes → Result CryptoError EncryptedPayload
  encrypt nonce plaintext shared_key = do
    throw_if (not (eqb (size shared_key) 32)) invalid_key_length
    ok (record {
      enc = "atel.enc.v1";
      ciphertext = base64_encode (secretbox (utf8_encode plaintext) nonce shared_key);
      nonce = base64_encode nonce;
    })

  unfoldable pub decrypt : EncryptedPayload → Bytes → Result CryptoError String
  decrypt payload shared_key = do
    throw_if (not (eqb (size shared_key) 32)) invalid_key_length
    throw_if (not (payload.enc == "atel.enc.v1")) unsupported_version
    opened ←
        or_library_error (
          secretbox_open (base64_decode payload.ciphertext) (base64_decode payload.nonce)
            shared_key)
    plaintext ← or_failed opened
    ok (utf8_decode plaintext)

  pub record EncryptionSession : Type 0 where
    pub remote_did : String
    pub shared_key : Bytes
    pub local_key_pair : EncryptionKeyPair
    pub remote_public_key : Bytes
    pub created_at : ℕ
    pub rotation_count : ℕ

  -- The sessions by the remote agent's DID.
  abbrev pub EncryptionManager : Type 0
  EncryptionManager = Map EncryptionSession

  unfoldable pub create_session_with_keys :
      ℕ → String → EncryptionKeyPair → Bytes → Bytes → EncryptionManager → EncryptionManager
  create_session_with_keys now remote_did local_key_pair remote_public_key shared_key sessions =
      insert remote_did
        (record {
          remote_did = remote_did;
          shared_key = shared_key;
          local_key_pair = local_key_pair;
          remote_public_key = remote_public_key;
          created_at = now;
          rotation_count = 0;
        })
        sessions

  -- The local public key, and the sessions.
  unfoldable pub create_session :
      Bytes
      → ℕ
      → String
      → Bytes
      → EncryptionManager
      → Result CryptoError (Bytes × EncryptionManager)
  create_session secret now remote_did remote_enc_pub_key sessions = do
    let local = generate_encryption_key_pair secret
    shared_key ← derive_shared_key local.secret_key remote_enc_pub_key
    ok (
      local.public_key,
      create_session_with_keys now remote_did local remote_enc_pub_key shared_key sessions,
    )

  abbrev pub get_session_or_throw :
      String → EncryptionManager → Result CryptoError EncryptionSession
  get_session_or_throw remote_did sessions = or_no_session (lookup remote_did sessions)

  unfoldable pub encrypt_for :
      Bytes → String → String → EncryptionManager → Result CryptoError EncryptedPayload
  encrypt_for nonce remote_did plaintext sessions = do
    session ← get_session_or_throw remote_did sessions
    encrypt nonce plaintext session.shared_key

  unfoldable pub decrypt_from :
      String → EncryptedPayload → EncryptionManager → Result CryptoError String
  decrypt_from remote_did payload sessions = do
    session ← get_session_or_throw remote_did sessions
    decrypt payload session.shared_key

  unfoldable pub rotate_key :
      Bytes → String → Bytes → EncryptionManager → Result CryptoError (Bytes × EncryptionManager)
  rotate_key secret remote_did new_remote_public_key sessions = do
    session ← get_session_or_throw remote_did sessions
    let fresh = generate_encryption_key_pair secret
    shared_key ← derive_shared_key fresh.secret_key new_remote_public_key
    ok (
      fresh.public_key,
      insert remote_did
          (record session {
            shared_key = shared_key;
            local_key_pair = fresh;
            remote_public_key = new_remote_public_key;
            rotation_count = session.rotation_count + 1;
          })
          sessions,
    )

  unfoldable pub has_session : String → EncryptionManager → Bool
  has_session remote_did sessions = is_some (lookup remote_did sessions)

  unfoldable pub destroy_session : String → EncryptionManager → EncryptionManager
  destroy_session remote_did sessions = erase remote_did sessions

  abbrev pub destroy_each : EncryptionManager → EncryptionManager → EncryptionManager
  destroy_each [] sessions = sessions
  destroy_each ((did, session) ∷ entries) sessions =
      destroy_each entries (destroy_session did sessions)

  unfoldable pub destroy_all : EncryptionManager → EncryptionManager
  destroy_all sessions = destroy_each sessions sessions
