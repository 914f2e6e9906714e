-- ===== src/Handshake/Completion.antt =====
-- How a handshake of src/handshake/index.ts ends for the initiator, between two agents that follow it, without wallets.
use atel_sdk.Base.{
  ℕ, ◌+◌, ◌*◌, String, ◌≡◌, refl, true, false, Option, none, some, List, ok, lookup, insert, erase,
  truthy,
}
use atel_sdk.Json.{str}
use atel_sdk.Identity.{Host, verify}
use atel_sdk.Envelope.{Message, verify_message}
use atel_sdk.Crypto.{
  Ciphers, EncryptionKeyPair, EncryptionManager, generate_encryption_key_pair, derive_shared_key,
  create_session, create_session_with_keys, destroy_session,
}
use atel_sdk.Handshake.{Wallets, HandshakeAckPayload, ack_value, confirm_value, Session, active}
use atel_sdk.Handshake.Steps.{Draws, fresh_only, open_session}
use atel_sdk.Handshake.Replies.{process_ack, initiator_keys, confirm_ack}
use atel_sdk.Handshake.Honest.{Manager, IsReady, IsSent, Responds, respond, send-ok, received}

module _ (host : Host) (ciphers : Ciphers) (time_of : String → Option ℕ) (iso : ℕ → String)
    (time_of-iso : (t : ℕ) → time_of (iso t) ≡ some t) where
  open host use {Bytes, base64_encode, base64_decode, base64_round}

  abbrev Agent : Type 0
  Agent = Manager host ciphers time_of iso time_of-iso

  -- The session that is opened with a peer that sent no wallet bundle.
  abbrev pub session_with :
      Draws ciphers
      → Agent
      → String
      → Bytes
      → Option (List String)
      → Option Wallets
      → Session host ciphers
  session_with d g did key capabilities wallets = record {
    session_id = d.session_id;
    local_did = g.identity.did;
    remote_did = did;
    remote_public_key = key;
    encrypted = true;
    remote_capabilities = capabilities;
    remote_wallets = wallets;
    remote_wallets_verified = false;
    created_at = iso d.now;
    expires_at = iso (d.now + g.session_ttl_sec * 1000);
    state = active;
  }

  pub open_session-ok :
      (d : Draws ciphers) (g : Agent) (did : String) (key : Bytes)
      (capabilities : Option (List String)) (wallets : Option Wallets)
      → let s = session_with d g did key capabilities wallets in
        open_session host ciphers time_of iso d did key true capabilities wallets none g
        ≡ (ok s, record g { sessions = insert did s g.sessions })
  unfolding open_session
  open_session-ok d g did key capabilities wallets = refl

  -- The encryption session of the initiator: the one that is made first is replaced.
  abbrev pub initiator_encryption :
      Draws ciphers
      → HandshakeAckPayload
      → EncryptionKeyPair ciphers
      → ciphers.Bytes
      → ciphers.Bytes
      → EncryptionManager ciphers
      → EncryptionManager ciphers
  initiator_encryption d p pair spare shared encryption =
      let remote = ciphers.base64_decode p.enc_public_key in
      create_session_with_keys ciphers d.now p.did pair remote shared (
        destroy_session ciphers p.did (
          create_session_with_keys ciphers d.now p.did
            (generate_encryption_key_pair ciphers d.spare_secret) remote spare encryption))

  create_session-ok :
      (secret remote shared : ciphers.Bytes) (now : ℕ) (did : String)
      (encryption : EncryptionManager ciphers)
      → derive_shared_key ciphers (generate_encryption_key_pair ciphers secret).secret_key remote
        ≡ ok shared
      → create_session ciphers secret now did remote encryption
        ≡ ok (
          (generate_encryption_key_pair ciphers secret).public_key,
          create_session_with_keys ciphers now did
              (generate_encryption_key_pair ciphers secret)
              remote
              shared
              encryption,
        )
  unfolding create_session
  create_session-ok secret remote shared now did encryption derived = rw derived refl

  -- What the initiator has at hand when the answer arrives.
  pub record IsAwaited (d : Draws ciphers) (p : HandshakeAckPayload) (g : Agent) (key : Bytes)
      (pair : EncryptionKeyPair ciphers) (challenge : String) (spare shared : ciphers.Bytes)
      : Type 0 where
    pub encoded : base64_encode key ≡ p.public_key
    pub bare : p.wallet_bundle ≡ none
    pub pending : lookup p.did g.pending_challenges ≡ some challenge
    pub drawn : truthy challenge ≡ true
    pub responds : verify host (str challenge) p.challenge_response key ≡ ok true
    pub on : g.enable_encryption ≡ true
    pub offered : truthy p.enc_public_key ≡ true
    pub kept_pair : lookup p.did g.pending_enc_keys ≡ some pair
    pub first :
        derive_shared_key ciphers
          (generate_encryption_key_pair ciphers d.spare_secret).secret_key
          (ciphers.base64_decode p.enc_public_key)
        ≡ ok spare
    pub derived :
        derive_shared_key ciphers pair.secret_key (ciphers.base64_decode p.enc_public_key)
        ≡ ok shared

  -- The initiator's manager at the end.
  abbrev pub connected :
      Draws ciphers
      → HandshakeAckPayload
      → Bytes
      → EncryptionKeyPair ciphers
      → ciphers.Bytes
      → ciphers.Bytes
      → Agent
      → Agent
  connected d p key pair spare shared g = record g {
    pending_challenges = erase p.did g.pending_challenges;
    pending_enc_keys = erase p.did g.pending_enc_keys;
    encryption = initiator_encryption d p pair spare shared g.encryption;
    sessions = insert p.did (session_with d g p.did key p.capabilities p.wallets) g.sessions;
  }

  module _ (d : Draws ciphers) (p : HandshakeAckPayload) (g : Agent) (key : Bytes)
      (pair : EncryptionKeyPair ciphers) (challenge : String) (spare shared : ciphers.Bytes)
      (awaited : IsAwaited d p g key pair challenge spare shared) where
    initiator_keys-ok :
        initiator_keys host ciphers time_of iso d p
          (record g { pending_challenges = erase p.did g.pending_challenges })
        ≡ (
          ok true,
          record g {
            pending_challenges = erase p.did g.pending_challenges;
            encryption = initiator_encryption d p pair spare shared g.encryption;
            pending_enc_keys = erase p.did g.pending_enc_keys;
          },
        )
    initiator_keys-ok =
        let made =
          create_session-ok d.spare_secret (ciphers.base64_decode p.enc_public_key) spare d.now
            p.did g.encryption awaited.first in
        rw (awaited.on, awaited.offered, made, awaited.kept_pair, awaited.derived) refl

    confirm_ack-ok :
        (h : Agent)
        → IsReady host ciphers time_of iso time_of-iso d h
        → truthy p.did ≡ true
        → (m : Message) × (response : String) × (confirm_ack host ciphers time_of iso d p true h ≡ (
          ok (m, session_with d h p.did key p.capabilities p.wallets),
          record h {
            sessions =
                insert p.did (session_with d h p.did key p.capabilities p.wallets) h.sessions;
          },
        ))
          × IsSent host ciphers time_of iso time_of-iso d h
              (confirm_value (record { challenge_response = response }))
              m
          × Responds host ciphers time_of iso time_of-iso h p.challenge response
    confirm_ack-ok h ready receiver =
        let (response, signed, responds) =
          respond host ciphers time_of iso time_of-iso h p.challenge ready.0 in
        let (m, sent, is_sent) =
          send-ok host ciphers time_of iso time_of-iso d h "handshake_confirm" p.did
            (confirm_value (record { challenge_response = response })) ready receiver refl in
        (
          m,
          response,
          rw
              (
                signed,
                sent,
                awaited.bare,
                ← awaited.encoded,
                base64_round,
                open_session-ok d h p.did key p.capabilities p.wallets,
              )
              refl,
          is_sent,
          responds,
        )

    -- The awaited answer is accepted.
    pub process_ack-ok :
        (m : Message)
        → IsReady host ciphers time_of iso time_of-iso d g
        → truthy p.did ≡ true
        → m.payload ≡ ack_value p
        → verify_message host time_of d.now m key fresh_only ≡ ok none
        → (confirm : Message) × (response : String) × (process_ack host ciphers time_of iso d m p g
            ≡ (
              ok (confirm, session_with d g p.did key p.capabilities p.wallets),
              connected d p key pair spare shared g,
            ))
          × IsSent host ciphers time_of iso time_of-iso d g
              (confirm_value (record { challenge_response = response }))
              confirm
          × Responds host ciphers time_of iso time_of-iso g p.challenge response
    unfolding process_ack
    process_ack-ok m ready receiver payload valid =
        let keys = initiator_keys-ok in
        let (confirm, response, done, is_sent, responds) =
          confirm_ack-ok
            (record g {
              pending_challenges = erase p.did g.pending_challenges;
              encryption = initiator_encryption d p pair spare shared g.encryption;
              pending_enc_keys = erase p.did g.pending_enc_keys;
            })
            ready receiver in
        let answered : verify host (str challenge) p.challenge_response (base64_decode p.public_key)
            ≡ ok true =
          rw (← awaited.encoded, base64_round) awaited.responds in
        (
          confirm,
          response,
          rw
              (
                received host ciphers time_of iso time_of-iso m (ack_value p) d.now key p.public_key
                    payload awaited.encoded valid,
                awaited.pending,
                awaited.drawn,
                answered,
                keys,
              )
              done,
          is_sent,
          responds,
        )
