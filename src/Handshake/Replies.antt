-- ===== src/Handshake/Replies.antt =====
-- The last two messages of a handshake and the sessions, of HandshakeManager of src/handshake/index.ts.
use atel_sdk.Base.{
  ℕ, String, Bool, true, false, ◌&&◌, Option, none, some, List, ok, map_err, lookup, erase, truthy,
  ltb, if◌then◌else◌,
}
use atel_sdk.Json.{str}
use atel_sdk.Identity.{Host, sign, verify}
use atel_sdk.Envelope.{Message, verify_message}
use atel_sdk.Crypto.{
  Ciphers, EncryptionKeyPair, derive_shared_key, create_session, create_session_with_keys,
  has_session, destroy_session,
}
use atel_sdk.Handshake.{
  Wallets, WalletBundle, HandshakeInitPayload, HandshakeAckPayload, HandshakeConfirmPayload,
  ack_value, confirm_value, ack_refused, confirm_refused, identity_error, crypto_error, Session,
  HandshakeManager, Outcome, attempt,
}
use atel_sdk.Handshake.Steps.{
  Draws, fresh_only, or_refused, or_no_pending, or_challenge_failed, or_else_text, send,
  open_session, then_with,
}

abbrev pub from_init {ℓ} :
    {A : Type ℓ} → Option HandshakeInitPayload → (HandshakeInitPayload → Option A) → Option A
from_init none read = none
from_init (some stored) read = read stored

module _ (host : Host) (ciphers : Ciphers) (time_of : String → Option ℕ) (iso : ℕ → String) where
  open host use {Bytes, base64_decode}

  -- With the pending key pair, if there is one, the session is made anew.
  abbrev pub pending_keys :
      Draws ciphers
      → String
      → ciphers.Bytes
      → HandshakeManager host ciphers
      → Option (EncryptionKeyPair ciphers)
      → Outcome host ciphers Bool
  pending_keys draws did remote g none = (ok false, g)
  pending_keys draws did remote g (some pair) =
      attempt host ciphers g
        (map_err crypto_error (derive_shared_key ciphers pair.secret_key remote))
        (λ shared. (
          ok true,
          record g {
            encryption =
                create_session_with_keys ciphers draws.now did pair remote shared
                  (destroy_session ciphers did g.encryption);
            pending_enc_keys = erase did g.pending_enc_keys;
          },
        ))

  -- The initiator's encryption session, and whether it is on.
  abbrev pub initiator_keys :
      Draws ciphers
      → HandshakeAckPayload
      → HandshakeManager host ciphers
      → Outcome host ciphers Bool
  initiator_keys draws payload g =
      if g.enable_encryption && truthy payload.enc_public_key
      then (let remote = ciphers.base64_decode payload.enc_public_key in
          attempt host ciphers g
            (map_err crypto_error
              (create_session ciphers draws.spare_secret draws.now payload.did remote g.encryption))
            (λ made.
              pending_keys draws payload.did remote (record g { encryption = made.1 })
                (lookup payload.did g.pending_enc_keys)))
      else (ok false, g)

  -- From the response to the other's challenge on.
  abbrev pub confirm_ack :
      Draws ciphers
      → HandshakeAckPayload
      → Bool
      → HandshakeManager host ciphers
      → Outcome host ciphers (Message × Session host ciphers)
  confirm_ack draws payload encrypted g =
      attempt host ciphers g
        (map_err identity_error (sign host (str payload.challenge) g.identity.secret_key))
        (λ response.
          then_with host ciphers time_of iso
            (send host ciphers time_of iso draws g "handshake_confirm" payload.did
              (confirm_value (record { challenge_response = response })))
            (λ confirm h.
              then_with host ciphers time_of iso
                (open_session host ciphers time_of iso draws payload.did
                  (base64_decode payload.public_key) encrypted payload.capabilities payload.wallets
                  payload.wallet_bundle h)
                (λ session k. (ok (confirm, session), k))))

  unfoldable pub process_ack :
      Draws ciphers
      → Message
      → HandshakeAckPayload
      → HandshakeManager host ciphers
      → Outcome host ciphers (Message × Session host ciphers)
  process_ack draws m payload g =
      let key = base64_decode payload.public_key in
      attempt host ciphers g
        (or_refused ack_refused (
          verify_message host time_of draws.now (record m { payload = ack_value payload }) key
            fresh_only))
        (λ _.
          attempt host ciphers g
            (or_no_pending payload.did (lookup payload.did g.pending_challenges))
            (λ challenge.
              attempt host ciphers g
                (or_challenge_failed (verify host (str challenge) payload.challenge_response key))
                (λ _.
                  then_with host ciphers time_of iso
                    (initiator_keys draws payload
                      (record g { pending_challenges = erase payload.did g.pending_challenges }))
                    (λ encrypted h. confirm_ack draws payload encrypted h))))

  -- The initiator's public key, and what else it told, are the caller's.
  unfoldable pub process_confirm :
      Draws ciphers
      → Message
      → HandshakeConfirmPayload
      → Bytes
      → Option (List String)
      → Option Wallets
      → Option WalletBundle
      → HandshakeManager host ciphers
      → Outcome host ciphers (Session host ciphers)
  process_confirm draws m payload key capabilities wallets bundle g =
      attempt host ciphers g
        (or_refused confirm_refused (
          verify_message host time_of draws.now (record m { payload = confirm_value payload }) key
            fresh_only))
        (λ _.
          attempt host ciphers g (or_no_pending m.from (lookup m.from g.pending_challenges))
            (λ challenge.
              attempt host ciphers g
                (or_challenge_failed (verify host (str challenge) payload.challenge_response key))
                (λ _.
                  let stored = lookup m.from g.pending_init_payloads in
                  open_session host ciphers time_of iso draws m.from key
                    (has_session ciphers m.from g.encryption)
                    (or_else_text capabilities (from_init stored (λ p. p.capabilities)))
                    (or_else_text wallets (from_init stored (λ p. p.wallets)))
                    (or_else_text bundle (from_init stored (λ p. p.wallet_bundle)))
                    (record g {
                      pending_challenges = erase m.from g.pending_challenges;
                      pending_init_payloads = erase m.from g.pending_init_payloads;
                    }))))

  unfoldable pub terminate_session :
      String → HandshakeManager host ciphers → HandshakeManager host ciphers
  terminate_session did g = record g {
    sessions = erase did g.sessions;
    encryption = destroy_session ciphers did g.encryption;
  }

  -- A date that is not one is never before now.
  abbrev pub is_past : ℕ → Option ℕ → Bool
  is_past now none = false
  is_past now (some time) = ltb time now

  -- The session that is found, unless it has ended.
  abbrev pub unless_past :
      ℕ
      → String
      → HandshakeManager host ciphers
      → Option (Session host ciphers)
      → Option (Session host ciphers) × HandshakeManager host ciphers
  unless_past now did g none = (none, g)
  unless_past now did g (some session) =
      if is_past now (time_of session.expires_at)
      then (none, terminate_session did g)
      else (some session, g)

  unfoldable pub get_session :
      ℕ
      → String
      → HandshakeManager host ciphers
      → Option (Session host ciphers) × HandshakeManager host ciphers
  get_session now did g = unless_past now did g (lookup did g.sessions)
