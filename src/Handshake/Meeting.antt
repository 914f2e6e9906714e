-- ===== src/Handshake/Meeting.antt =====
-- What two agents bring to a whole handshake of src/handshake/index.ts, and what it leaves.
use atel_sdk.Base.{ℕ, ◌+◌, ◌≤◌, String, ◌≡◌, true, Option, none, some, ok, lookup, truthy}
use atel_sdk.Identity.{Host}
use atel_sdk.Identity.Rotation.{IsSound}
use atel_sdk.Envelope.{Message}
use atel_sdk.Crypto.{Ciphers, EncryptionSession}
use atel_sdk.Handshake.{
  HandshakeInitPayload, HandshakeAckPayload, HandshakeConfirmPayload, init_value, ack_value,
  confirm_value, Session,
}
use atel_sdk.Handshake.Steps.{Draws, create_init, process_init}
use atel_sdk.Handshake.Replies.{process_ack, process_confirm}
use atel_sdk.Handshake.Honest.{Manager, IsReady}

-- A message sent at the first time is accepted at the second: at most 30 seconds earlier by the other
-- clock, and at most five minutes later.
abbrev pub Arrives : ℕ → ℕ → Type 0
Arrives sent now = (sent ≤ now + 30000) × (now ≤ sent + 300000)

module _ (host : Host) (ciphers : Ciphers) (time_of : String → Option ℕ) (iso : ℕ → String)
    (time_of-iso : (t : ℕ) → time_of (iso t) ≡ some t) where
  open host use {Bytes, base64_encode, base64_decode}

  abbrev pub Agent : Type 0
  Agent = Manager host ciphers time_of iso time_of-iso

  -- An agent with a sound identity, encryption turned on and, for one call, a nonce.
  pub record CanTakePart (d : Draws ciphers) (g : Agent) : Type 0 where
    pub ready : IsReady host ciphers time_of iso time_of-iso d g
    pub sound : IsSound host g.identity
    pub on : g.enable_encryption ≡ true

  -- What the four calls draw and read: the initiator's first and third, the responder's second and fourth.
  pub record Meets (alice bob : Agent) (d e f l : Draws ciphers) : Type 0 where
    pub opens : CanTakePart d alice
    pub answers : CanTakePart e bob
    pub closes : CanTakePart f alice
    pub init_arrives : Arrives d.now e.now
    pub ack_arrives : Arrives e.now f.now
    pub confirm_arrives : Arrives f.now l.now
    pub first_challenge : truthy d.challenge ≡ true
    pub second_challenge : truthy e.challenge ≡ true
    pub own_secret : ciphers.size d.enc_secret ≡ 32
    pub other_secret : ciphers.size e.enc_secret ≡ 32
    pub spare_secret : ciphers.size f.spare_secret ≡ 32

  -- The messages and sessions of the exchange, and the state it leaves.
  pub record Exchanged (alice bob : Agent) (d e f l : Draws ciphers) : Type 0 where
    pub opening : HandshakeInitPayload
    pub answer : HandshakeAckPayload
    pub closing : HandshakeConfirmPayload
    pub start : Message
    pub ack : Message
    pub confirm : Message
    pub alice_waits : Agent
    pub alice_ends : Agent
    pub bob_waits : Agent
    pub bob_ends : Agent
    pub with_bob : Session host ciphers
    pub with_alice : Session host ciphers
    pub with_bob_keys : EncryptionSession ciphers
    pub with_alice_keys : EncryptionSession ciphers
    pub starts :
        create_init host ciphers time_of iso d bob.identity.did none alice ≡ (ok start, alice_waits)
    pub start_carries : start.payload ≡ init_value opening
    pub acks : process_init host ciphers time_of iso e start opening none bob ≡ (ok ack, bob_waits)
    pub ack_carries : ack.payload ≡ ack_value answer
    pub confirms :
        process_ack host ciphers time_of iso f ack answer alice_waits
        ≡ (ok (confirm, with_bob), alice_ends)
    pub confirm_carries : confirm.payload ≡ confirm_value closing
    pub ends :
        process_confirm host ciphers time_of iso l confirm closing alice.identity.public_key none
          none none bob_waits
        ≡ (ok with_alice, bob_ends)
    pub alice_has : lookup bob.identity.did alice_ends.sessions ≡ some with_bob
    pub bob_has : lookup alice.identity.did bob_ends.sessions ≡ some with_alice
    pub bob_named :
        (with_bob.remote_public_key ≡ bob.identity.public_key) × (with_bob.encrypted ≡ true)
    pub alice_named :
        (with_alice.remote_public_key ≡ alice.identity.public_key) × (with_alice.encrypted ≡ true)
    pub alice_keys : lookup bob.identity.did alice_ends.encryption ≡ some with_bob_keys
    pub bob_keys : lookup alice.identity.did bob_ends.encryption ≡ some with_alice_keys
    pub one_key : with_bob_keys.shared_key ≡ with_alice_keys.shared_key
