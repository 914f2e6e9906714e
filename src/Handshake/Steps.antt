-- ===== src/Handshake/Steps.antt =====
-- The methods of HandshakeManager of src/handshake/index.ts. Each returns its result, or what it
-- throws, beside the manager that it leaves. `time_of` and `iso` are Date's reading and writing of a time.
use atel_sdk.Base.{
  ℕ, ◌+◌, ◌*◌, String, Bool, false, ◌&&◌, Option, none, some, List, Result, ok, err, map_err,
  insert, truthy, ◌==◌, if◌then◌else◌,
}
use atel_sdk.Json.{Value, str}
use atel_sdk.Identity.{Host, IdentityError, sign, parse_did}
use atel_sdk.Envelope.{Message, MessageFault, VerifyOptions, create_message, verify_message}
use atel_sdk.Crypto.{
  Ciphers, generate_encryption_key_pair, derive_shared_key, create_session_with_keys,
}
use atel_sdk.Handshake.{
  Wallets, WalletBundle, HandshakeInitPayload, init_value, ack_value, HandshakeError, init_refused,
  no_pending_handshake, challenge_failed, did_mismatch, identity_error, crypto_error, active,
  create_wallet_bundle, verify_wallet_bundle, Session, HandshakeManager, Outcome, attempt,
}

abbrev pub fresh_only : VerifyOptions
fresh_only = record { max_age_ms = none; skip_timestamp_check = false }

-- A refused message is a throw.
abbrev pub or_refused :
    (MessageFault → HandshakeError)
    → Result IdentityError (Option MessageFault)
    → Result HandshakeError (Unit {0})
or_refused refuse (err e) = err (identity_error e)
or_refused refuse (ok (some fault)) = err (refuse fault)
or_refused refuse (ok none) = ok tt

-- A challenge is a text that is not empty, and so is found or is not there.
abbrev pub or_no_pending : String → Option String → Result HandshakeError String
or_no_pending did none = err (no_pending_handshake did)
or_no_pending did (some challenge) =
    if truthy challenge then ok challenge else err (no_pending_handshake did)

abbrev pub or_challenge_failed : Result IdentityError Bool → Result HandshakeError (Unit {0})
or_challenge_failed (err e) = err (identity_error e)
or_challenge_failed (ok valid) = if valid then ok tt else err challenge_failed

abbrev pub or_else_text {ℓ} : {A : Type ℓ} → Option A → Option A → Option A
or_else_text none fallback = fallback
or_else_text (some a) fallback = some a

-- What one method draws and reads from the clock. `spare_secret` is the key that createSession draws.
pub record Draws (ciphers : Ciphers) : Type 0 where
  pub now : ℕ
  pub challenge : String
  pub enc_secret : ciphers.Bytes
  pub spare_secret : ciphers.Bytes
  pub nonce : String
  pub session_id : String

module _ (host : Host) (ciphers : Ciphers) (time_of : String → Option ℕ) (iso : ℕ → String) where
  open host use {Bytes, base64_encode, base64_decode}

  abbrev pub Manager : Type 0
  Manager = HandshakeManager host ciphers

  abbrev pub send : Draws ciphers → Manager → String → String → Value → Outcome host ciphers Message
  send draws g type to payload = (
    map_err identity_error (
        create_message host (iso draws.now) draws.nonce type g.identity.did to payload
          g.identity.secret_key),
    g,
  )

  abbrev pub bundle_of : Option Wallets → Bytes → Result HandshakeError (Option WalletBundle)
  bundle_of none secret_key = ok none
  bundle_of (some wallets) secret_key =
      elim (create_wallet_bundle host ciphers wallets secret_key) [
        | ok bundle ↦ ok (some bundle)
        | err e ↦ err (identity_error e)
      ]

  unfoldable pub create_init :
      Draws ciphers → String → Option Wallets → Manager → Outcome host ciphers Message
  create_init draws remote_did wallets g =
      let pair = generate_encryption_key_pair ciphers draws.enc_secret in
      let waiting = record g {
        pending_challenges = insert remote_did draws.challenge g.pending_challenges;
        pending_enc_keys = insert remote_did pair g.pending_enc_keys;
      } in
      attempt host ciphers waiting (bundle_of wallets g.identity.secret_key) (λ bundle.
        send draws waiting "handshake_init" remote_did (
          init_value (record {
            did = g.identity.did;
            public_key = base64_encode g.identity.public_key;
            enc_public_key = ciphers.base64_encode pair.public_key;
            challenge = draws.challenge;
            capabilities = none;
            wallets = wallets;
            wallet_bundle = bundle;
          })))

  -- Whether a bundle's addresses are the sender's, and the wallets of the session.
  abbrev pub verified_wallets :
      Option Wallets → Option WalletBundle → Bytes → Result HandshakeError (Bool × Option Wallets)
  verified_wallets wallets none key = ok (false, wallets)
  verified_wallets wallets (some bundle) key = elim (verify_wallet_bundle host ciphers bundle key) [
    | err e ↦ err (identity_error e)
    | ok valid ↦ ok (valid, (if valid then some bundle.addresses else wallets))
  ]

  unfoldable pub open_session :
      Draws ciphers
      → String
      → Bytes
      → Bool
      → Option (List String)
      → Option Wallets
      → Option WalletBundle
      → Manager
      → Outcome host ciphers (Session host ciphers)
  open_session draws remote_did key encrypted capabilities wallets bundle g =
      attempt host ciphers g (verified_wallets wallets bundle key) (λ checked.
        let session : Session host ciphers = record {
          session_id = draws.session_id;
          local_did = g.identity.did;
          remote_did = remote_did;
          remote_public_key = key;
          encrypted = encrypted;
          remote_capabilities = capabilities;
          remote_wallets = checked.1;
          remote_wallets_verified = checked.0;
          created_at = iso draws.now;
          expires_at = iso (draws.now + g.session_ttl_sec * 1000);
          state = active;
        } in
        (ok session, record g { sessions = insert remote_did session g.sessions }))

  -- The responder's encryption session.
  abbrev pub responder_keys :
      Draws ciphers → HandshakeInitPayload → Manager → Outcome host ciphers (Unit {0})
  responder_keys draws payload g =
      if g.enable_encryption && truthy payload.enc_public_key
      then (let pair = generate_encryption_key_pair ciphers draws.enc_secret in
          let remote = ciphers.base64_decode payload.enc_public_key in
          attempt host ciphers g
            (map_err crypto_error (derive_shared_key ciphers pair.secret_key remote))
            (λ shared. (
              ok tt,
              record g {
                encryption =
                    create_session_with_keys ciphers draws.now payload.did pair remote shared
                      g.encryption;
              },
            )))
      else (ok tt, g)

  abbrev pub then_with {ℓ} :
      {A : Type ℓ} {B : Type 0}
      → Result HandshakeError A × Manager
      → (A → Manager → Outcome host ciphers B)
      → Outcome host ciphers B
  then_with (err e, g) next = (err e, g)
  then_with (ok a, g) next = next a g

  -- The response to the other's challenge, and the message.
  abbrev pub answer_init :
      Draws ciphers → HandshakeInitPayload → Option Wallets → Manager → Outcome host ciphers Message
  answer_init draws payload wallets g =
      attempt host ciphers g
        (map_err identity_error (sign host (str payload.challenge) g.identity.secret_key))
        (λ response. attempt host ciphers g (bundle_of wallets g.identity.secret_key) (λ bundle.
          send draws g "handshake_ack" payload.did (
            ack_value (record {
              did = g.identity.did;
              public_key = base64_encode g.identity.public_key;
              enc_public_key =
                  ciphers.base64_encode
                    (generate_encryption_key_pair ciphers draws.enc_secret).public_key;
              challenge = draws.challenge;
              challenge_response = response;
              capabilities = none;
              wallets = wallets;
              wallet_bundle = bundle;
            }))))

  -- The drawn challenge and the payload are kept.
  abbrev pub await_confirm : Draws ciphers → HandshakeInitPayload → Manager → Manager
  await_confirm draws payload g = record g {
    pending_challenges = insert payload.did draws.challenge g.pending_challenges;
    pending_init_payloads = insert payload.did payload g.pending_init_payloads;
  }

  -- From the key in the DID on.
  abbrev pub accept_init :
      Draws ciphers
      → HandshakeInitPayload
      → Option Wallets
      → Bytes
      → Manager
      → Outcome host ciphers Message
  accept_init draws payload wallets did_key g =
      if base64_encode did_key == payload.public_key
      then then_with (responder_keys draws payload (await_confirm draws payload g))
          (λ _ h. answer_init draws payload wallets h)
      else (err did_mismatch, g)

  -- The message is read with its payload.
  unfoldable pub process_init :
      Draws ciphers
      → Message
      → HandshakeInitPayload
      → Option Wallets
      → Manager
      → Outcome host ciphers Message
  process_init draws m payload wallets g =
      attempt host ciphers g
        (or_refused init_refused (
          verify_message host time_of draws.now (record m { payload = init_value payload })
            (base64_decode payload.public_key) fresh_only))
        (λ _.
          attempt host ciphers g (map_err identity_error (parse_did host payload.did))
            (λ did_key. accept_init draws payload wallets did_key g))
