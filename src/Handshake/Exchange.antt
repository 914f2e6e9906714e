-- ===== src/Handshake/Exchange.antt =====
-- A whole handshake of src/handshake/index.ts between two agents that follow it: its four calls, in order.
use atel_sdk.Base.{
  ℕ, String, ◌≡◌, refl, true, Option, none, some, ok, lookup, lookup-insert_self, truthy, arith,
}
use atel_sdk.Json.{Value, str}
use atel_sdk.Identity.{Host, verify}
use atel_sdk.Identity.Did.{parse_did-create_did}
use atel_sdk.Envelope.{Message, verify_message}
use atel_sdk.Crypto.{
  Ciphers, EncryptionKeyPair, EncryptionManager, generate_encryption_key_pair, derive_shared_key,
  create_session_with_keys, has_session,
}
use atel_sdk.Crypto.Sealed.{exchanged}
use atel_sdk.Handshake.{
  HandshakeInitPayload, HandshakeConfirmPayload, init_value, ack_value, confirm_value,
}
use atel_sdk.Handshake.Steps.{Draws, fresh_only}
use atel_sdk.Handshake.Honest.{
  Manager, IsSent, Responds, opened, opening, answer, answered, create_init-ok, process_init-ok,
}
use atel_sdk.Handshake.Meeting.{Arrives, CanTakePart, Meets, Exchanged}
use atel_sdk.Handshake.Completion.{IsAwaited, process_ack-ok}
use atel_sdk.Handshake.Confirmed.{process_confirm-ok}

module _ (host : Host) (ciphers : Ciphers) (time_of : String → Option ℕ) (iso : ℕ → String)
    (time_of-iso : (t : ℕ) → time_of (iso t) ≡ some t) where
  open host use {Bytes, base64_encode, base64_decode}

  abbrev Agent : Type 0
  Agent = Manager host ciphers time_of iso time_of-iso

  -- A sent message is valid at the time of its arrival, under the public key of its sender.
  arrived :
      (d : Draws ciphers) (g : Agent) (m : Message) (payload : Value)
      → CanTakePart host ciphers time_of iso time_of-iso d g
      → IsSent host ciphers time_of iso time_of-iso d g payload m
      → (now : ℕ) → Arrives d.now now
      → verify_message host time_of now m g.identity.public_key fresh_only ≡ ok none
  arrived d g m payload part sent now (early, late) = rw part.sound.paired (sent.2 now early late)

  offered :
      (d : Draws ciphers)
      → ciphers.size d.enc_secret ≡ 32
      → truthy
          (ciphers.base64_encode (generate_encryption_key_pair ciphers d.enc_secret).public_key)
        ≡ true
  unfolding generate_encryption_key_pair
  offered d wide =
      ciphers.truthy-base64 _ (omega (arith, ciphers.size-box_public_of d.enc_secret wide))

  -- A key is derived from the text of a public key.
  derived_of_text :
      (own other shared : ciphers.Bytes)
      → derive_shared_key ciphers own (ciphers.box_public_of other) ≡ ok shared
      → derive_shared_key ciphers (generate_encryption_key_pair ciphers own).secret_key (
          ciphers.base64_decode
            (ciphers.base64_encode (generate_encryption_key_pair ciphers other).public_key))
        ≡ ok shared
  unfolding generate_encryption_key_pair
  derived_of_text own other shared h = rw (ciphers.base64_round) h

  abbrev opening_of : Draws ciphers → Agent → HandshakeInitPayload
  opening_of d g = opening host ciphers time_of iso time_of-iso d g

  -- The encryption session that was made for a DID.
  created :
      (now : ℕ) (did : String) (pair : EncryptionKeyPair ciphers) (remote shared : ciphers.Bytes)
      (encryption : EncryptionManager ciphers)
      → lookup did (create_session_with_keys ciphers now did pair remote shared encryption)
        ≡ some (record {
          remote_did = did;
          shared_key = shared;
          local_key_pair = pair;
          remote_public_key = remote;
          created_at = now;
          rotation_count = 0;
        })
  unfolding create_session_with_keys
  created now did pair remote shared encryption = lookup-insert_self did _ encryption

  has_created :
      (now : ℕ) (did : String) (pair : EncryptionKeyPair ciphers) (remote shared : ciphers.Bytes)
      (encryption : EncryptionManager ciphers)
      → has_session ciphers did
          (create_session_with_keys ciphers now did pair remote shared encryption)
        ≡ true
  unfolding has_session
  has_created now did pair remote shared encryption =
      rw (created now did pair remote shared encryption) refl

  verified :
      (d : Draws ciphers) (g : Agent) (challenge response : String)
      → CanTakePart host ciphers time_of iso time_of-iso d g
      → Responds host ciphers time_of iso time_of-iso g challenge response
      → verify host (str challenge) response g.identity.public_key ≡ ok true
  verified d g challenge response part responds = rw part.sound.paired responds

  -- The initiator waits for the responder's answer.
  is_awaited :
      (d e f : Draws ciphers) (alice bob : Agent) (response : String) (spare shared : ciphers.Bytes)
      {l : Draws ciphers}
      → Meets host ciphers time_of iso time_of-iso alice bob d e f l
      → Responds host ciphers time_of iso time_of-iso bob d.challenge response
      → derive_shared_key ciphers (generate_encryption_key_pair ciphers f.spare_secret).secret_key (
          ciphers.base64_decode
            (ciphers.base64_encode (generate_encryption_key_pair ciphers e.enc_secret).public_key))
        ≡ ok spare
      → derive_shared_key ciphers (generate_encryption_key_pair ciphers d.enc_secret).secret_key (
          ciphers.base64_decode
            (ciphers.base64_encode (generate_encryption_key_pair ciphers e.enc_secret).public_key))
        ≡ ok shared
      → IsAwaited host ciphers time_of iso time_of-iso f
          (answer host ciphers time_of iso time_of-iso e bob response)
          (opened host ciphers time_of iso time_of-iso d bob.identity.did alice)
          bob.identity.public_key
          (generate_encryption_key_pair ciphers d.enc_secret)
          d.challenge
          spare
          shared
  is_awaited d e f alice bob response spare shared m responds first derived = record {
    encoded = refl;
    bare = refl;
    pending = lookup-insert_self bob.identity.did d.challenge alice.pending_challenges;
    drawn = m.first_challenge;
    responds = verified e bob d.challenge response m.answers responds;
    on = m.opens.on;
    offered = offered e m.other_secret;
    kept_pair = lookup-insert_self bob.identity.did _ alice.pending_enc_keys;
    first = first;
    derived = derived;
  }

  -- Two agents without wallets, with sound identities, encryption and clocks that agree within limits, who draw
  -- challenges that are not empty and secrets of the right size, complete the handshake: none of its four
  -- calls throws, each ends with an encrypted session under the other's DID and public key, and both hold
  -- the same key for it.
  pub handshake_completes :
      (alice bob : Agent) (d e f l : Draws ciphers)
      → Meets host ciphers time_of iso time_of-iso alice bob d e f l
      → Exchanged host ciphers time_of iso time_of-iso alice bob d e f l
  handshake_completes alice bob d e f l m =
      let alice_key =
        parse_did-create_did host alice.identity.public_key alice.identity.did
          m.opens.sound.named in
      let (shared, _, own, other) =
        exchanged ciphers d.enc_secret e.enc_secret m.own_secret m.other_secret in
      let (spare, _, first, _) =
        exchanged ciphers f.spare_secret e.enc_secret m.spare_secret m.other_secret in
      let p = opening_of d alice in
      let (start, starts, start_sent) =
        create_init-ok host ciphers time_of iso time_of-iso d bob.identity.did alice m.opens.ready
          m.answers.ready.1 in
      let (ack, response, acks, ack_sent, responds) =
        process_init-ok host ciphers time_of iso time_of-iso e start p bob alice.identity.public_key
          shared m.answers.ready m.opens.ready.1 start_sent.0
          (arrived d alice start (init_value p) m.opens start_sent e.now m.init_arrives) alice_key
          refl m.answers.on (offered d m.own_secret)
          (derived_of_text e.enc_secret d.enc_secret shared other) in
      let q = answer host ciphers time_of iso time_of-iso e bob response in
      let awaited =
        is_awaited d e f alice bob response spare shared m responds
          (derived_of_text f.spare_secret e.enc_secret spare first)
          (derived_of_text d.enc_secret e.enc_secret shared own) in
      let (confirm, reply, confirms, confirm_sent, replies) =
        process_ack-ok host ciphers time_of iso time_of-iso f q
          (opened host ciphers time_of iso time_of-iso d bob.identity.did alice)
          bob.identity.public_key (generate_encryption_key_pair ciphers d.enc_secret) d.challenge
          spare shared awaited ack m.closes.ready m.answers.ready.1 ack_sent.0
          (arrived e bob ack (ack_value q) m.answers ack_sent f.now m.ack_arrives) in
      let closing : HandshakeConfirmPayload = record { challenge_response = reply } in
      let bob_waits = answered host ciphers time_of iso time_of-iso e p shared bob in
      let ends =
        process_confirm-ok host ciphers time_of iso time_of-iso l confirm closing bob_waits
          alice.identity.public_key alice.identity.did e.challenge p confirm_sent.1 confirm_sent.0
          (arrived f alice confirm (confirm_value closing) m.closes confirm_sent l.now
            m.confirm_arrives)
          (lookup-insert_self alice.identity.did e.challenge bob.pending_challenges)
          m.second_challenge (verified d alice e.challenge reply m.opens replies)
          (lookup-insert_self alice.identity.did p bob.pending_init_payloads) refl
          (has_created e.now alice.identity.did _ _ shared bob.encryption) in
      record {
        opening = p;
        answer = q;
        closing = closing;
        start = start;
        ack = ack;
        confirm = confirm;
        alice_waits = opened host ciphers time_of iso time_of-iso d bob.identity.did alice;
        alice_ends = _;
        bob_waits = bob_waits;
        bob_ends = _;
        with_bob = _;
        with_alice = _;
        with_bob_keys = _;
        with_alice_keys = _;
        starts = starts;
        start_carries = start_sent.0;
        acks = acks;
        ack_carries = ack_sent.0;
        confirms = confirms;
        confirm_carries = confirm_sent.0;
        ends = ends;
        alice_has = lookup-insert_self bob.identity.did _ alice.sessions;
        bob_has = lookup-insert_self alice.identity.did _ bob.sessions;
        bob_named = (refl, refl);
        alice_named = (refl, refl);
        alice_keys = created f.now bob.identity.did _ _ shared _;
        bob_keys = created e.now alice.identity.did _ _ shared bob.encryption;
        one_key = refl;
      }
