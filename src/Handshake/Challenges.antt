-- ===== src/Handshake/Challenges.antt =====
-- What a completed handshake of src/handshake/index.ts has checked, and what it leaves of a challenge.
use atel_sdk.Base.{
  lookup-insert_self, lookup-erase_self, ℕ, String, ◌≡◌, ◌≢◌, refl, ap, sym, ◌∙◌, true, Option,
  none, some, ok, map_err, map_err-eq-ok, lookup, truthy, eq_iff, ◌==◌, arith, Bool-cases, if-elim,
  ◌&&◌, inl, inr,
}
use atel_sdk.Json.{str}
use atel_sdk.Identity.{Host, sign, parse_did, verify}
use atel_sdk.Envelope.{Message, verify_message}
use atel_sdk.Crypto.{Ciphers, generate_encryption_key_pair, derive_shared_key}
use atel_sdk.Handshake.{
  Wallets, HandshakeInitPayload, HandshakeConfirmPayload, init_refused, identity_error,
  crypto_error, init_value, confirm_value, Session, HandshakeManager, Outcome,
}
use atel_sdk.Handshake.Steps.{
  bundle_of, answer_init, await_confirm, accept_init, Draws, fresh_only, or_refused, process_init,
  responder_keys,
}
use atel_sdk.Handshake.Replies.{process_confirm}
use atel_sdk.Handshake.Outcomes.{
  or_refused-eq-ok, or_no_pending-eq-ok, or_challenge_failed-eq-ok, attempt-eq-ok,
  open_session-eq-ok, then_with-eq-ok, attempt_kept,
}

module _ (host : Host) (ciphers : Ciphers) (time_of : String → Option ℕ) (iso : ℕ → String) where
  open host use {Bytes, base64_encode, base64_decode, base64_round}

  abbrev Manager : Type 0
  Manager = HandshakeManager host ciphers

  -- The responder's call on a message from `m.from`, with what the caller tells of the initiator.
  abbrev pub confirm :
      Draws ciphers
      → Message
      → HandshakeConfirmPayload
      → Bytes
      → Manager
      → Outcome host ciphers (Session host ciphers)
  confirm draws m payload key g =
      process_confirm host ciphers time_of iso draws m payload key none none none g

  -- What was checked, and what the manager holds afterwards.
  abbrev pub Confirmed :
      Draws ciphers
      → Message
      → HandshakeConfirmPayload
      → Bytes
      → Manager
      → Session host ciphers
      → Manager
      → Type 0
  Confirmed draws m payload key g s h =
      (verify_message host time_of draws.now (record m { payload = confirm_value payload }) key
          fresh_only
        ≡ ok none)
      × (challenge : String) × (lookup m.from g.pending_challenges ≡ some challenge)
      × (verify host (str challenge) payload.challenge_response key ≡ ok true)
      × (s.remote_did ≡ m.from)
      × (s.remote_public_key ≡ key)
      × (lookup m.from h.sessions ≡ some s)
      × (lookup m.from h.pending_challenges ≡ none)

  confirm-Confirmed :
      (draws : Draws ciphers) (m : Message) (payload : HandshakeConfirmPayload) (key : Bytes)
      (g h : Manager) (s : Session host ciphers)
      → confirm draws m payload key g ≡ (ok s, h)
      → Confirmed draws m payload key g s h
  unfolding process_confirm
  confirm-Confirmed draws m payload key g h s eq =
      let (u, valid, rest) = attempt-eq-ok host ciphers time_of iso g h _ _ s eq in
      let (challenge, known, rest') = attempt-eq-ok host ciphers time_of iso g h _ _ s rest in
      let (v, answered, opened) = attempt-eq-ok host ciphers time_of iso g h _ _ s rest' in
      let (pending, _) = or_no_pending-eq-ok m.from challenge _ known in
      let (did, own, _, made) =
        open_session-eq-ok host ciphers time_of iso draws m.from key _ _ _ _ _ h s opened in
      (
        or_refused-eq-ok _ _ u valid,
        challenge,
        pending,
        or_challenge_failed-eq-ok _ v answered,
        did,
        own,
        rw made (lookup-insert_self m.from s g.sessions),
        rw made (lookup-erase_self m.from g.pending_challenges),
      )

  no_challenge :
      (draws : Draws ciphers) (m : Message) (payload : HandshakeConfirmPayload) (key : Bytes)
      (g h : Manager) (s : Session host ciphers)
      → lookup m.from g.pending_challenges ≡ none
      → confirm draws m payload key g ≢ (ok s, h)
  no_challenge draws m payload key g h s missing eq =
      let (_, challenge, pending, _, _, _, _, _) = confirm-Confirmed draws m payload key g h s eq in
      ground (arith, missing, pending)

  -- A responder opens a session for a confirmation only when the message is valid under the
  -- initiator's key and answers, under that key, the challenge that it had sent to the message's sender.
  -- The session is then recorded under the sender's DID with that key, and the challenge is used up: no
  -- confirmation from the same sender, with any content, key or time, opens a session again.
  pub process_confirm_once :
      (draws later : Draws ciphers) (m n : Message) (payload other : HandshakeConfirmPayload)
      (key other_key : Bytes) (g h k : Manager) (s t : Session host ciphers)
      → confirm draws m payload key g ≡ (ok s, h)
      → n.from ≡ m.from
      → Confirmed draws m payload key g s h × (confirm later n other other_key h ≢ (ok t, k))
  process_confirm_once draws later m n payload other key other_key g h k s t eq again =
      let done = confirm-Confirmed draws m payload key g h s eq in
      (done, no_challenge later n other other_key h k t (rw again done.7))

  -- The responder's keys change nothing else.
  responder_keys_kept :
      (draws : Draws ciphers) (payload : HandshakeInitPayload) (g : Manager)
      → ((responder_keys host ciphers time_of iso draws payload g).1.sessions ≡ g.sessions)
        × ((responder_keys host ciphers time_of iso draws payload g).1.pending_challenges
            ≡ g.pending_challenges)
  unfolding generate_encryption_key_pair
  responder_keys_kept draws payload g =
      if-elim
        (λ (r : Outcome host ciphers (Unit {0})).
          (r.1.sessions ≡ g.sessions) × (r.1.pending_challenges ≡ g.pending_challenges))
        (g.enable_encryption && truthy payload.enc_public_key)
        (attempt_kept host ciphers time_of iso g
          (map_err crypto_error (
            derive_shared_key ciphers draws.enc_secret
              (ciphers.base64_decode payload.enc_public_key)))
          _ (λ shared. (refl, refl)))
        (refl, refl)

  -- Sending a message leaves the manager as it is.
  answer_init_kept :
      (draws : Draws ciphers) (payload : HandshakeInitPayload) (wallets : Option Wallets)
      (g : Manager)
      → ((answer_init host ciphers time_of iso draws payload wallets g).1.sessions ≡ g.sessions)
        × ((answer_init host ciphers time_of iso draws payload wallets g).1.pending_challenges
            ≡ g.pending_challenges)
  answer_init_kept draws payload wallets g =
      attempt_kept host ciphers time_of iso {B = Message} g
        (map_err identity_error (sign host (str payload.challenge) g.identity.secret_key)) _
        (λ response.
          attempt_kept host ciphers time_of iso {B = Message} g
            (bundle_of host ciphers time_of iso wallets g.identity.secret_key) _
            (λ bundle. (refl, refl)))

  accept_init-eq-ok :
      (draws : Draws ciphers) (ack : Message) (payload : HandshakeInitPayload)
      (wallets : Option Wallets) (key : Bytes) (g h : Manager)
      → accept_init host ciphers time_of iso draws payload wallets key g ≡ (ok ack, h)
      → (base64_encode key ≡ payload.public_key)
        × (lookup payload.did h.pending_challenges ≡ some draws.challenge)
        × (h.sessions ≡ g.sessions)
  accept_init-eq-ok draws ack payload wallets key g h eq =
      elim (Bool-cases (base64_encode key == payload.public_key)) [
        | inr other ↦ ground (arith, other, eq)
        | inl same ↦
            let waiting = await_confirm host ciphers time_of iso draws payload g in
            let r = responder_keys host ciphers time_of iso draws payload waiting in
            let (_, _, sent) =
              then_with-eq-ok host ciphers time_of iso r
                (λ _ k. answer_init host ciphers time_of iso draws payload wallets k) h ack
                (rw same at eq) in
            let (sessions, challenges) = answer_init_kept draws payload wallets r.1 in
            let (first, second) = responder_keys_kept draws payload waiting in
            let after : r.1.pending_challenges ≡ h.pending_challenges =
              sym challenges ∙ ap (λ o. o.1.pending_challenges) sent in
            (
              (eq_iff _ _).0 same,
              rw (← after, second)
                  (lookup-insert_self payload.did draws.challenge g.pending_challenges),
              sym (ap (λ o. o.1.sessions) sent) ∙ sessions ∙ first,
            )
      ]

  -- A responder answers an opening only when the message is valid under the key that its DID carries. It
  -- then waits for the answer to the challenge that it drew, and has opened no session yet.
  pub process_init_bound :
      (draws : Draws ciphers) (m ack : Message) (payload : HandshakeInitPayload)
      (wallets : Option Wallets) (g h : Manager)
      → process_init host ciphers time_of iso draws m payload wallets g ≡ (ok ack, h)
      → (key : Bytes) × (parse_did host payload.did ≡ ok key)
        × (verify_message host time_of draws.now
              (record m { payload = init_value payload })
              key
              fresh_only
            ≡ ok none)
        × (lookup payload.did h.pending_challenges ≡ some draws.challenge)
        × (h.sessions ≡ g.sessions)
  unfolding process_init
  process_init_bound draws m ack payload wallets g h eq =
      let (u, valid, rest) =
        attempt-eq-ok host ciphers time_of iso g h
          (or_refused init_refused (
            verify_message host time_of draws.now (record m { payload = init_value payload })
              (base64_decode payload.public_key) fresh_only))
          _ ack eq in
      let (key, parsed, rest') =
        attempt-eq-ok host ciphers time_of iso g h
          (map_err identity_error (parse_did host payload.did)) _ ack rest in
      let (bound, waiting, kept) = accept_init-eq-ok draws ack payload wallets key g h rest' in
      (
        key,
        map_err-eq-ok _ _ parsed,
        rw (← base64_round key, bound) (or_refused-eq-ok _ _ u valid),
        waiting,
        kept,
      )
