-- ===== src/Tests/Handshakes.antt =====
-- The theorems on encryption and handshakes at the toy host and at ciphers that seal nothing. Every text
-- is read as the time 1000.
use text.Mathlib.TextLemmas.{cons-ne-nil}
use atel_sdk.Base.{
  truthy, arith, ◌<◌, ℕ, ◌≡◌, ◌≢◌, refl, String, true, false, Option, none, some, [], ok, lookup,
  insert, concat,
}
use atel_sdk.Json.{str}
use atel_sdk.Identity.{sign, verify, parse_did}
use atel_sdk.Envelope.{
  Message, verify_message, check_header, check_timestamp, has_fields, create_message,
}
use atel_sdk.Crypto.{Ciphers, create_session, generate_encryption_key_pair, derive_shared_key}
use atel_sdk.Handshake.{
  HandshakeInitPayload, HandshakeAckPayload, HandshakeConfirmPayload, HandshakeManager, Session,
  active, ack_value, confirm_value,
}
use atel_sdk.Handshake.Steps.{Draws, fresh_only, open_session, process_init}
use atel_sdk.Handshake.Replies.{process_ack, process_confirm}
use atel_sdk.Handshake.Answers.{process_ack_sound}
use atel_sdk.Handshake.Challenges.{Confirmed, confirm, process_confirm_once}
use atel_sdk.Tests.{truthy_of_ne, toy, toy_identity, letters, letter_count}

pub truthy_of_count : (b : String) → 0 < letter_count b → truthy b ≡ true
truthy_of_count String.[] h = ground arith
truthy_of_count (String.◌∷◌ c s) h = truthy_of_ne _ (cons-ne-nil c s)

abbrev pub plain : Ciphers
plain = record {
  Bytes = String;
  size = letter_count;
  box_public_of = λ secret. secret;
  before = λ public secret. some "raw";
  kdf = λ raw. letters 32;
  secretbox = λ message nonce key. message;
  secretbox_open = λ ciphertext nonce key. some (some ciphertext);
  base64_encode = λ b. b;
  base64_decode = λ s. s;
  utf8_encode = λ s. s;
  utf8_decode = λ b. b;
  before_agrees = λ a b h k. ("raw", refl, refl);
  size-box_public_of = λ a h. h;
  truthy-base64 = λ b h. truthy_of_count b h;
  size-kdf = λ raw. refl;
  open-secretbox = λ message nonce key h k. refl;
  base64_round = λ b. refl;
  utf8_round = λ s. refl;
}

abbrev time_of : String → Option ℕ
time_of s = some 1000

abbrev iso : ℕ → String
iso t = "time"

abbrev pub draws : Draws plain
draws = record {
  now = 1000;
  challenge = "c";
  enc_secret = letters 32;
  spare_secret = letters 32;
  nonce = "n";
  session_id = "s";
}

abbrev alice : String
alice = concat "did:atel:ed25519:" (letters 32)

abbrev message : Message
message = record {
  envelope = "atel.msg.v1";
  type = "handshake";
  from = alice;
  to = "bob";
  timestamp = "time";
  nonce = "m";
  payload = str "";
  signature = letters 64;
}

abbrev opening : HandshakeInitPayload
opening = record {
  did = alice;
  public_key = letters 32;
  enc_public_key = "k";
  challenge = "d";
  capabilities = none;
  wallets = none;
  wallet_bundle = none;
}

abbrev pub manager : HandshakeManager toy plain
manager = record {
  identity = toy_identity;
  session_ttl_sec = 3600;
  enable_encryption = true;
  sessions = [];
  pending_challenges = insert alice "c" [];
  pending_enc_keys = [];
  pending_init_payloads = [];
  encryption = [];
}

abbrev answer : Message
answer = record {
  envelope = "atel.msg.v1";
  type = "handshake_ack";
  from = alice;
  to = alice;
  timestamp = "time";
  nonce = "n";
  payload = ack_value (record {
    did = alice;
    public_key = letters 32;
    enc_public_key = letters 32;
    challenge = "c";
    challenge_response = letters 64;
    capabilities = none;
    wallets = none;
    wallet_bundle = none;
  });
  signature = letters 64;
}

abbrev waiting : HandshakeManager toy plain
waiting = (process_init toy plain time_of iso draws message opening none manager).1

answered :
    process_init toy plain time_of iso draws message opening none manager ≡ (ok answer, waiting)
unfolding process_init verify_message check_header check_timestamp has_fields verify sign parse_did
    create_message generate_encryption_key_pair derive_shared_key atel_sdk.Identity.did_key_part
    atel_sdk.Identity.Split.split
answered = refl

abbrev reply : HandshakeConfirmPayload
reply = record { challenge_response = letters 64 }

abbrev session : Session toy plain
session = record {
  session_id = "s";
  local_did = alice;
  remote_did = alice;
  remote_public_key = 32;
  encrypted = false;
  remote_capabilities = none;
  remote_wallets = none;
  remote_wallets_verified = false;
  created_at = "time";
  expires_at = "time";
  state = active;
}

abbrev opened : HandshakeManager toy plain
opened = (confirm toy plain time_of iso draws message reply 32 manager).1

confirmed : confirm toy plain time_of iso draws message reply 32 manager ≡ (ok session, opened)
unfolding process_confirm open_session verify_message check_header check_timestamp has_fields verify
    lookup insert atel_sdk.Crypto.has_session
confirmed = refl

process_confirm_once_example :
    Confirmed toy plain time_of iso draws message reply 32 manager session opened
    × (confirm toy plain time_of iso draws message reply 32 opened ≢ (ok session, opened))
process_confirm_once_example =
    process_confirm_once toy plain time_of iso draws draws message message reply reply 32 32 manager
      opened opened session session confirmed refl

-- The answer names bob, whose DID carries no key, and is valid under the key that it carries itself.
abbrev ack : HandshakeAckPayload
ack = record {
  did = "bob";
  public_key = letters 32;
  enc_public_key = "k";
  challenge = "d";
  challenge_response = letters 64;
  capabilities = none;
  wallets = none;
  wallet_bundle = none;
}

abbrev initiator : HandshakeManager toy plain
initiator = record manager {
  pending_challenges = insert "bob" "c" [];
  pending_enc_keys = insert "bob" (generate_encryption_key_pair plain (letters 32)) [];
}

abbrev with_bob : Session toy plain
with_bob = record session { remote_did = "bob"; encrypted = true }

abbrev confirmation : Message
confirmation = record answer {
  type = "handshake_confirm";
  to = "bob";
  payload = confirm_value reply;
}

abbrev connected : HandshakeManager toy plain
connected = (process_ack toy plain time_of iso draws message ack initiator).1

acknowledged :
    process_ack toy plain time_of iso draws message ack initiator
    ≡ (ok (confirmation, with_bob), connected)
unfolding process_ack open_session verify_message check_header check_timestamp has_fields verify
    lookup insert create_message sign create_session derive_shared_key generate_encryption_key_pair
    confirm_value
acknowledged = refl

process_ack_sound_example :
    (verify_message toy time_of 1000 (record message { payload = ack_value ack }) 32 fresh_only
      ≡ ok none)
    × (challenge : String) × (lookup "bob" initiator.pending_challenges ≡ some challenge)
    × (verify toy (str challenge) ack.challenge_response 32 ≡ ok true)
    × (with_bob.remote_did ≡ "bob")
    × (with_bob.remote_public_key ≡ 32)
    × (connected.sessions ≡ insert "bob" with_bob [])
    × (lookup "bob" connected.pending_challenges ≡ none)
process_ack_sound_example =
    process_ack_sound toy plain time_of iso draws message confirmation ack initiator connected
      with_bob acknowledged
