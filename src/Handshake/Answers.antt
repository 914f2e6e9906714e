-- ===== src/Handshake/Answers.antt =====
-- What the initiator of a handshake of src/handshake/index.ts checks in the answer it gets.
use atel_sdk.Base.{
  lookup-erase_self, ℕ, String, ◌≡◌, refl, ap, ◌∙◌, Bool, true, Option, none, some, ok, map_err,
  lookup, insert, erase, truthy, arith, if-elim, ◌&&◌,
}
use atel_sdk.Json.{str}
use atel_sdk.Identity.{Host, sign, verify}
use atel_sdk.Envelope.{Message, verify_message}
use atel_sdk.Crypto.{Ciphers, EncryptionKeyPair, create_session, derive_shared_key}
use atel_sdk.Handshake.{
  HandshakeAckPayload, ack_refused, identity_error, crypto_error, confirm_value, ack_value, Session,
  HandshakeManager, Outcome,
}
use atel_sdk.Handshake.Steps.{
  send, Draws, fresh_only, or_refused, or_no_pending, or_challenge_failed, open_session,
}
use atel_sdk.Handshake.Replies.{pending_keys, initiator_keys, confirm_ack, process_ack}
use atel_sdk.Handshake.Outcomes.{
  or_refused-eq-ok, or_no_pending-eq-ok, or_challenge_failed-eq-ok, attempt-eq-ok,
  open_session-eq-ok, then_with-eq-ok, attempt_kept,
}

module _ (host : Host) (ciphers : Ciphers) (time_of : String → Option ℕ) (iso : ℕ → String) where
  open host use {Bytes, base64_decode}

  abbrev Manager : Type 0
  Manager = HandshakeManager host ciphers

  pending_keys_kept :
      (draws : Draws ciphers) (did : String) (remote : ciphers.Bytes) (g : Manager)
      (o : Option (EncryptionKeyPair ciphers))
      → ((pending_keys host ciphers time_of iso draws did remote g o).1.sessions ≡ g.sessions)
        × ((pending_keys host ciphers time_of iso draws did remote g o).1.pending_challenges
            ≡ g.pending_challenges)
  pending_keys_kept draws did remote g none = (refl, refl)
  pending_keys_kept draws did remote g (some pair) =
      attempt_kept host ciphers time_of iso {B = Bool} g
        (map_err crypto_error (derive_shared_key ciphers pair.secret_key remote)) _
        (λ shared. (refl, refl))

  initiator_keys_kept :
      (draws : Draws ciphers) (payload : HandshakeAckPayload) (g : Manager)
      → ((initiator_keys host ciphers time_of iso draws payload g).1.sessions ≡ g.sessions)
        × ((initiator_keys host ciphers time_of iso draws payload g).1.pending_challenges
            ≡ g.pending_challenges)
  initiator_keys_kept draws payload g =
      if-elim
        (λ (r : Outcome host ciphers Bool).
          (r.1.sessions ≡ g.sessions) × (r.1.pending_challenges ≡ g.pending_challenges))
        (g.enable_encryption && truthy payload.enc_public_key)
        (attempt_kept host ciphers time_of iso {B = Bool} g
          (map_err crypto_error (
            create_session ciphers draws.spare_secret draws.now payload.did
              (ciphers.base64_decode payload.enc_public_key) g.encryption))
          _
          (λ made.
            pending_keys_kept draws payload.did _ (record g { encryption = made.1 })
              (lookup payload.did g.pending_enc_keys)))
        (refl, refl)

  confirm_ack-eq-ok :
      (draws : Draws ciphers) (payload : HandshakeAckPayload) (encrypted : Bool) (g h : Manager)
      (m : Message) (s : Session host ciphers)
      → confirm_ack host ciphers time_of iso draws payload encrypted g ≡ (ok (m, s), h)
      → (s.remote_did ≡ payload.did)
        × (s.remote_public_key ≡ base64_decode payload.public_key)
        × (h ≡ record g { sessions = insert payload.did s g.sessions })
  confirm_ack-eq-ok draws payload encrypted g h m s eq =
      let (response, _, rest) =
        attempt-eq-ok host ciphers time_of iso g h
          (map_err identity_error (sign host (str payload.challenge) g.identity.secret_key)) _
          (m, s) eq in
      let (sent, _, rest') =
        then_with-eq-ok host ciphers time_of iso
          (send host ciphers time_of iso draws g "handshake_confirm" payload.did
            (confirm_value (record { challenge_response = response })))
          _ h (m, s) rest in
      let r =
        open_session host ciphers time_of iso draws payload.did (base64_decode payload.public_key)
          encrypted payload.capabilities payload.wallets payload.wallet_bundle g in
      let (session, returned, last) =
        then_with-eq-ok host ciphers time_of iso r (λ session k. (ok (sent, session), k)) h (m, s)
          rest' in
      let (did, own, _, made) =
        open_session-eq-ok host ciphers time_of iso draws payload.did
          (base64_decode payload.public_key) encrypted payload.capabilities payload.wallets
          payload.wallet_bundle g r.1 session (ap (λ x. (x, r.1)) returned) in
      ground (arith, did, own, made, last)

  -- The initiator opens a session for an answer only when the message is valid under the key in its
  -- payload and answers, under that key, the challenge that it had sent to the DID in the payload. The
  -- session is recorded under that DID with that key, and the challenge is used up.
  pub process_ack_sound :
      (draws : Draws ciphers) (m confirm : Message) (payload : HandshakeAckPayload) (g h : Manager)
      (s : Session host ciphers)
      → process_ack host ciphers time_of iso draws m payload g ≡ (ok (confirm, s), h)
      → let key = base64_decode payload.public_key in
        (verify_message host time_of draws.now
            (record m { payload = ack_value payload })
            key
            fresh_only
          ≡ ok none)
        × (challenge : String) × (lookup payload.did g.pending_challenges ≡ some challenge)
        × (verify host (str challenge) payload.challenge_response key ≡ ok true)
        × (s.remote_did ≡ payload.did)
        × (s.remote_public_key ≡ key)
        × (h.sessions ≡ insert payload.did s g.sessions)
        × (lookup payload.did h.pending_challenges ≡ none)
  unfolding process_ack
  process_ack_sound draws m confirm payload g h s eq =
      let key = base64_decode payload.public_key in
      let (u, valid, rest) =
        attempt-eq-ok host ciphers time_of iso g h
          (or_refused ack_refused (
            verify_message host time_of draws.now (record m { payload = ack_value payload }) key
              fresh_only))
          _ (confirm, s) eq in
      let (challenge, known, rest') =
        attempt-eq-ok host ciphers time_of iso g h
          (or_no_pending payload.did (lookup payload.did g.pending_challenges)) _ (confirm, s)
          rest in
      let (v, answered, rest'') =
        attempt-eq-ok host ciphers time_of iso g h
          (or_challenge_failed (verify host (str challenge) payload.challenge_response key)) _
          (confirm, s) rest' in
      let cleared = record g { pending_challenges = erase payload.did g.pending_challenges } in
      let r = initiator_keys host ciphers time_of iso draws payload cleared in
      let (encrypted, _, last) =
        then_with-eq-ok host ciphers time_of iso r
          (λ encrypted k. confirm_ack host ciphers time_of iso draws payload encrypted k) h
          (confirm, s) rest'' in
      let (did, own, made) = confirm_ack-eq-ok draws payload encrypted r.1 h confirm s last in
      let (sessions, challenges) = initiator_keys_kept draws payload cleared in
      (
        or_refused-eq-ok _ _ u valid,
        challenge,
        (or_no_pending-eq-ok payload.did challenge _ known).0,
        or_challenge_failed-eq-ok _ v answered,
        did,
        own,
        ap (λ k. k.sessions) made ∙ ap (λ l. insert payload.did s l) sessions,
        ap (λ k. lookup payload.did k.pending_challenges) made
            ∙ ap (λ l. lookup payload.did l) challenges
            ∙ lookup-erase_self payload.did g.pending_challenges,
      )
