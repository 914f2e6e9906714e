-- ===== src/Handshake/Honest.antt =====
-- The steps of a handshake of src/handshake/index.ts between two agents that follow it, without wallets.
use atel_sdk.Base.{
  ℕ, ◌+◌, ◌≤◌, String, ◌≡◌, refl, true, ◌&&◌, Option, none, some, ok, insert, truthy, ◌==◌, eq_refl,
}
use atel_sdk.Json.{Value, str}
use atel_sdk.Json.Canonical.{same}
use atel_sdk.Identity.{Host, sign, verify, parse_did}
use atel_sdk.Identity.Signing.{verify-sign, sign-ok}
use atel_sdk.Envelope.{Message, verify_message}
use atel_sdk.Envelope.Signed.{create_message-ok}
use atel_sdk.Crypto.{
  Ciphers, EncryptionKeyPair, generate_encryption_key_pair, derive_shared_key,
  create_session_with_keys,
}
use atel_sdk.Handshake.{
  HandshakeInitPayload, HandshakeAckPayload, init_value, ack_value, HandshakeManager,
}
use atel_sdk.Handshake.Steps.{
  responder_keys, Draws, fresh_only, send, create_init, await_confirm, answer_init, process_init,
}

named :
    (from to type nonce : String)
    → truthy from ≡ true
    → truthy to ≡ true
    → truthy type ≡ true
    → truthy nonce ≡ true
    → (truthy from && truthy to && truthy type && truthy nonce) ≡ true
named from to type nonce a b c d = rw (a, b, c, d) refl

module _ (host : Host) (ciphers : Ciphers) (time_of : String → Option ℕ) (iso : ℕ → String)
    (time_of-iso : (t : ℕ) → time_of (iso t) ≡ some t) where
  open host use {Bytes, size, public_of, base64_encode, base64_decode, base64_round}

  abbrev pub Manager : Type 0
  Manager = HandshakeManager host ciphers

  -- The message verifies from 30 seconds before until five minutes after it was sent.
  abbrev pub IsValid : ℕ → Bytes → Message → Type 0
  IsValid sent key m =
      (now : ℕ)
      → sent ≤ now + 30000
      → now ≤ sent + 300000
      → verify_message host time_of now m key fresh_only ≡ ok none

  -- A message of the manager's agent, with its payload.
  abbrev pub IsSent : Draws ciphers → Manager → Value → Message → Type 0
  IsSent d g payload m =
      (m.payload ≡ payload)
      × (m.from ≡ g.identity.did)
      × IsValid d.now (public_of g.identity.secret_key) m

  -- The agent's secret key has its size, and the agent has a name.
  abbrev pub IsReady : Draws ciphers → Manager → Type 0
  IsReady d g =
      (size g.identity.secret_key ≡ 64) × (truthy g.identity.did ≡ true) × (truthy d.nonce ≡ true)

  pub send-ok :
      (d : Draws ciphers) (g : Manager) (type to : String) (payload : Value)
      → IsReady d g
      → truthy to ≡ true
      → truthy type ≡ true
      → (m : Message) × (send host ciphers time_of iso d g type to payload ≡ (ok m, g))
        × IsSent d g payload m
  send-ok d g type to payload (long, own, drawn) receiver kind =
      let (m, made, kept, from, valid) =
        create_message-ok host time_of iso time_of-iso d.now d.nonce type g.identity.did to payload
          g.identity.secret_key long
          (named g.identity.did to type d.nonce own receiver kind drawn) in
      (m, rw made refl, (kept, from, valid))

  abbrev pub pair_of : Draws ciphers → EncryptionKeyPair ciphers
  pair_of d = generate_encryption_key_pair ciphers d.enc_secret

  abbrev pub opening : Draws ciphers → Manager → HandshakeInitPayload
  opening d g = record {
    did = g.identity.did;
    public_key = base64_encode g.identity.public_key;
    enc_public_key = ciphers.base64_encode (pair_of d).public_key;
    challenge = d.challenge;
    capabilities = none;
    wallets = none;
    wallet_bundle = none;
  }

  -- The initiator's manager after its opening.
  abbrev pub opened : Draws ciphers → String → Manager → Manager
  opened d did g = record g {
    pending_challenges = insert did d.challenge g.pending_challenges;
    pending_enc_keys = insert did (pair_of d) g.pending_enc_keys;
  }

  pub create_init-ok :
      (d : Draws ciphers) (did : String) (g : Manager)
      → IsReady d g
      → truthy did ≡ true
      → (m : Message) × (create_init host ciphers time_of iso d did none g ≡ (ok m, opened d did g))
        × IsSent d g (init_value (opening d g)) m
  unfolding create_init
  create_init-ok d did g ready receiver =
      send-ok d (opened d did g) "handshake_init" did (init_value (opening d g)) ready receiver refl

  abbrev pub answer : Draws ciphers → Manager → String → HandshakeAckPayload
  answer d g response = record {
    did = g.identity.did;
    public_key = base64_encode g.identity.public_key;
    enc_public_key = ciphers.base64_encode (pair_of d).public_key;
    challenge = d.challenge;
    challenge_response = response;
    capabilities = none;
    wallets = none;
    wallet_bundle = none;
  }

  -- The responder's manager after its answer.
  abbrev pub answered : Draws ciphers → HandshakeInitPayload → ciphers.Bytes → Manager → Manager
  answered d p shared g = record (await_confirm host ciphers time_of iso d p g) {
    encryption =
        create_session_with_keys ciphers d.now p.did (pair_of d)
          (ciphers.base64_decode p.enc_public_key) shared g.encryption;
  }

  -- The response to a challenge verifies.
  abbrev pub Responds : Manager → String → String → Type 0
  Responds g challenge response =
      verify host (str challenge) response (public_of g.identity.secret_key) ≡ ok true

  pub respond :
      (g : Manager) (challenge : String)
      → size g.identity.secret_key ≡ 64
      → (response : String) × (sign host (str challenge) g.identity.secret_key ≡ ok response)
        × Responds g challenge response
  respond g challenge long =
      let made = sign-ok host (str challenge) g.identity.secret_key long in
      (_, made, verify-sign host _ _ g.identity.secret_key _ (same _) made)

  answer_init-ok :
      (d : Draws ciphers) (p : HandshakeInitPayload) (g : Manager)
      → IsReady d g
      → truthy p.did ≡ true
      → (m : Message) × (response : String) × (answer_init host ciphers time_of iso d p none g
          ≡ (ok m, g))
        × IsSent d g (ack_value (answer d g response)) m
        × Responds g p.challenge response
  answer_init-ok d p g ready receiver =
      let (response, signed, responds) = respond g p.challenge ready.0 in
      let (m, sent, is_sent) =
        send-ok d g "handshake_ack" p.did (ack_value (answer d g response)) ready receiver refl in
      (m, response, rw signed sent, is_sent, responds)

  -- The message that a manager verifies is the one that was sent.
  pub received :
      (m : Message) (payload : Value) (now : ℕ) (key : Bytes) (text : String)
      → m.payload ≡ payload
      → base64_encode key ≡ text
      → verify_message host time_of now m key fresh_only ≡ ok none
      → verify_message host time_of now
          (record m { payload = payload })
          (base64_decode text)
          fresh_only
        ≡ ok none
  received m payload now key text kept encoded valid = rw (← kept, ← encoded, base64_round) valid

  responder_keys-ok :
      (d : Draws ciphers) (p : HandshakeInitPayload) (g : Manager) (shared : ciphers.Bytes)
      → g.enable_encryption ≡ true
      → truthy p.enc_public_key ≡ true
      → derive_shared_key ciphers (pair_of d).secret_key (ciphers.base64_decode p.enc_public_key)
        ≡ ok shared
      → responder_keys host ciphers time_of iso d p (await_confirm host ciphers time_of iso d p g)
        ≡ (ok tt, answered d p shared g)
  responder_keys-ok d p g shared on offered derived = rw (on, offered, derived) refl

  pub process_init-ok :
      (d : Draws ciphers) (m : Message) (p : HandshakeInitPayload) (g : Manager) (key : Bytes)
      (shared : ciphers.Bytes)
      → IsReady d g
      → truthy p.did ≡ true
      → m.payload ≡ init_value p
      → verify_message host time_of d.now m key fresh_only ≡ ok none
      → parse_did host p.did ≡ ok key
      → base64_encode key ≡ p.public_key
      → g.enable_encryption ≡ true
      → truthy p.enc_public_key ≡ true
      → derive_shared_key ciphers (pair_of d).secret_key (ciphers.base64_decode p.enc_public_key)
        ≡ ok shared
      → (ack : Message) × (response : String) × (process_init host ciphers time_of iso d m p none g
          ≡ (ok ack, answered d p shared g))
        × IsSent d g (ack_value (answer d g response)) ack
        × Responds g p.challenge response
  unfolding process_init
  process_init-ok d m p g key shared ready receiver payload valid did encoded on offered derived =
      let (ack, response, sent, is_sent, responds) =
        answer_init-ok d p (answered d p shared g) ready receiver in
      let keys = responder_keys-ok d p g shared on offered derived in
      let same_key : (base64_encode key == p.public_key) ≡ true =
        rw encoded (eq_refl p.public_key) in
      (
        ack,
        response,
        rw
            (
              received m (init_value p) d.now key p.public_key payload encoded valid,
              did,
              same_key,
              keys,
            )
            sent,
        is_sent,
        responds,
      )
