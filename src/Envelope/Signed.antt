-- ===== src/Envelope/Signed.antt =====
-- verifyMessage of src/envelope/index.ts on what createMessage signs.
use atel_sdk.Base.{
  ℕ, ◌+◌, ◌≤◌, ◌<◌, String, ◌≡◌, refl, true, false, Option, none, some, ok, truthy, arith, ◌&&◌,
}
use atel_sdk.Json.{Value, str}
use atel_sdk.Json.Canonical.{same}
use atel_sdk.Identity.{Host, sign, verify}
use atel_sdk.Identity.Signing.{verify-sign, sign-ok}
use atel_sdk.Envelope.{
  Message, VerifyOptions, signable, has_fields, check_timestamp, check_header, create_message,
  verify_message, message_expired,
}

abbrev pub by_default : VerifyOptions
by_default = record { max_age_ms = none; skip_timestamp_check = false }

-- The message before it is signed.
abbrev pub unsigned : String → String → String → String → String → Value → Message
unsigned timestamp nonce type from to payload = record {
  envelope = "atel.msg.v1";
  type = type;
  from = from;
  to = to;
  timestamp = timestamp;
  nonce = nonce;
  payload = payload;
  signature = "";
}

module _ (host : Host) (time_of : String → Option ℕ) (iso : ℕ → String)
    (time_of-iso : (t : ℕ) → time_of (iso t) ≡ some t) where
  open host use {Bytes, size, public_of}

  created :
      (sent : ℕ) (nonce type from to : String) (payload : Value) (key : Bytes) (m : Message)
      → create_message host (iso sent) nonce type from to payload key ≡ ok m
      → (m.envelope ≡ "atel.msg.v1")
        × (m.timestamp ≡ iso sent)
        × (m.from ≡ from)
        × (m.to ≡ to)
        × (m.type ≡ type)
        × (m.nonce ≡ nonce)
        × (sign host (str (signable m)) key ≡ ok m.signature)
  unfolding create_message signable
  created sent nonce type from to payload key m h = ground arith

  create_message_signed :
      (sent : ℕ) (nonce type from to : String) (payload : Value) (key : Bytes) (signature : String)
      → sign host (str (signable (unsigned (iso sent) nonce type from to payload))) key
        ≡ ok signature
      → create_message host (iso sent) nonce type from to payload key
        ≡ ok (record (unsigned (iso sent) nonce type from to payload) { signature = signature })
  unfolding create_message
  create_message_signed sent nonce type from to payload key signature h = rw h refl

  fields_named :
      (m : Message) (from to type nonce : String)
      → m.from ≡ from
      → m.to ≡ to
      → m.type ≡ type
      → m.nonce ≡ nonce
      → (truthy from && truthy to && truthy type && truthy nonce) ≡ true
      → has_fields m ≡ true
  unfolding has_fields
  fields_named m from to type nonce a b c d named = rw (a, b, c, d) named

  header_timestamp :
      (now sent : ℕ) (m : Message)
      → m.envelope ≡ "atel.msg.v1"
      → m.timestamp ≡ iso sent
      → has_fields m ≡ true
      → check_header time_of now m by_default ≡ check_timestamp now 300000 (some sent)
  unfolding check_header
  header_timestamp now sent m version time fields = simp (version, fields, time, time_of-iso)

  -- A message with a sender, a receiver, a type and a nonce verifies under the sender's key from 30
  -- seconds before the time of its sending until five minutes after; later it is refused as expired.
  pub verify_message-create_message :
      (sent now : ℕ) (nonce type from to : String) (payload : Value) (key : Bytes) (m : Message)
      → create_message host (iso sent) nonce type from to payload key ≡ ok m
      → (truthy from && truthy to && truthy type && truthy nonce) ≡ true
      → (sent ≤ now + 30000
          → now ≤ sent + 300000
          → verify_message host time_of now m (public_of key) by_default ≡ ok none)
        × (sent + 300000 < now
            → verify_message host time_of now m (public_of key) by_default
              ≡ ok (some message_expired))
  unfolding verify_message check_timestamp
  verify_message-create_message sent now nonce type from to payload key m h named =
      let (version, time, a, b, c, d, signed) = created sent nonce type from to payload key m h in
      let valid : verify host (str (signable m)) m.signature (public_of key) ≡ ok true =
        verify-sign host _ _ key m.signature (same _) signed in
      let header =
        header_timestamp now sent m version time
          (fields_named m from to type nonce a b c d named) in
      (λ early late. rw header (ground (arith, valid)), λ late. rw header (ground (arith, valid)))

  -- With a secret key of the right size a message is created, and it is valid in its time.
  pub create_message-ok :
      (sent : ℕ) (nonce type from to : String) (payload : Value) (key : Bytes)
      → size key ≡ 64
      → (truthy from && truthy to && truthy type && truthy nonce) ≡ true
      → (m : Message) × (create_message host (iso sent) nonce type from to payload key ≡ ok m)
        × (m.payload ≡ payload)
        × (m.from ≡ from)
        × ((now : ℕ)
            → sent ≤ now + 30000
            → now ≤ sent + 300000
            → verify_message host time_of now m (public_of key) by_default ≡ ok none)
  create_message-ok sent nonce type from to payload key long named =
      let made =
        create_message_signed sent nonce type from to payload key _ (sign-ok host _ key long) in
      (
        _,
        made,
        refl,
        refl,
        λ now.
            (verify_message-create_message sent now nonce type from to payload key _ made named).0,
      )
