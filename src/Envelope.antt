-- ===== src/Envelope.antt =====
-- Messages and the nonce tracker of src/envelope/index.ts. Times are in milliseconds; `time_of` is
-- how Date reads a text (`none` for NaN) and `iso` how toISOString writes a time.
pub mod Signed
pub mod Nonces
pub mod Remembers
use atel_sdk.Base.{
  ℕ, ◌+◌, String, Bool, true, false, not, ◌&&◌, ◌||◌, Option, none, some, List, [], ◌∷◌, Result, ok,
  err, ◌>>=◌, Map, lookup, insert, is_some, filter, ltb, ◌==◌, truthy, if◌then◌else◌,
}
use atel_sdk.Json.{Value, str, obj, end, field, serialize_payload}
use atel_sdk.Identity.{Host, IdentityError, sign, verify}

pub record Message : Type 0 where
  pub envelope : String
  pub type : String
  pub from : String
  pub to : String
  pub timestamp : String
  pub nonce : String
  pub payload : Value
  pub signature : String

-- Why a message is not valid.
pub data MessageFault : Type 0 where
  unsupported_envelope missing_fields invalid_timestamp message_expired : MessageFault
  message_in_future invalid_signature : MessageFault

abbrev pub max_message_age_ms : ℕ
max_message_age_ms = 300000

-- The text that is signed: everything but the signature.
unfoldable pub signable : Message → String
signable m = serialize_payload (
    obj (
      field "envelope" (str m.envelope) (
        field "type" (str m.type) (
          field "from" (str m.from) (
            field "to" (str m.to) (
              field "timestamp" (str m.timestamp)
                (field "nonce" (str m.nonce) (field "payload" m.payload end))))))))

pub record VerifyOptions : Type 0 where
  pub max_age_ms : Option ℕ
  pub skip_timestamp_check : Bool

abbrev pub age_or_default : Option ℕ → ℕ
age_or_default none = max_message_age_ms
age_or_default (some n) = n

-- Freshness: too old, or more than 30 seconds ahead.
unfoldable pub check_timestamp : ℕ → ℕ → Option ℕ → Option MessageFault
check_timestamp now max_age none = some invalid_timestamp
check_timestamp now max_age (some time) =
    if ltb (time + max_age) now
    then some message_expired
    else if ltb (now + 30000) time
    then some message_in_future
    else none

unfoldable pub has_fields : Message → Bool
has_fields m = truthy m.from && truthy m.to && truthy m.type && truthy m.nonce

module _ (time_of : String → Option ℕ) where
  -- The checks before the signature is verified.
  unfoldable pub check_header : ℕ → Message → VerifyOptions → Option MessageFault
  check_header now m options =
      if not (m.envelope == "atel.msg.v1")
      then some unsupported_envelope
      else if not (has_fields m)
      then some missing_fields
      else if options.skip_timestamp_check
      then none
      else check_timestamp now (age_or_default options.max_age_ms) (time_of m.timestamp)

module _ (host : Host) where
  open host use {Bytes}

  -- createMessage, with the nonce it draws
  unfoldable pub create_message :
      String → String → String → String → String → Value → Bytes → Result IdentityError Message
  create_message timestamp nonce type from to payload secret_key = do
    let unsigned : Message = record {
      envelope = "atel.msg.v1";
      type = type;
      from = from;
      to = to;
      timestamp = timestamp;
      nonce = nonce;
      payload = payload;
      signature = "";
    }
    signature ← sign host (str (signable unsigned)) secret_key
    ok (record unsigned { signature = signature })

  abbrev pub check_signature :
      Message → Bytes → Option MessageFault → Result IdentityError (Option MessageFault)
  check_signature m key (some fault) = ok (some fault)
  check_signature m key none = do
    valid ← verify host (str (signable m)) m.signature key
    ok (if valid then none else some invalid_signature)

  -- `none` is a valid message.
  unfoldable pub verify_message :
      (String → Option ℕ)
      → ℕ
      → Message
      → Bytes
      → VerifyOptions
      → Result IdentityError (Option MessageFault)
  verify_message time_of now m key options =
      check_signature m key (check_header time_of now m options)

-- The times at which nonces were seen.
pub record NonceTracker : Type 0 where
  pub seen : Map ℕ
  pub max_age_ms : ℕ

unfoldable pub new_nonce_tracker : Option ℕ → NonceTracker
new_nonce_tracker none = record { seen = []; max_age_ms = max_message_age_ms + max_message_age_ms }
new_nonce_tracker (some age) = record { seen = []; max_age_ms = age }

-- Entries that are older than the age are dropped.
unfoldable pub evict : ℕ → NonceTracker → NonceTracker
evict now t = record t { seen = filter (λ entry. not (ltb (entry.1 + t.max_age_ms) now)) t.seen }

-- The first time is what the eviction reads, the second what is recorded.
unfoldable pub check : ℕ → ℕ → String → NonceTracker → Bool × NonceTracker
check now later nonce t =
    let kept = evict now t in
    if is_some (lookup nonce kept.seen)
    then (false, kept)
    else (true, record kept { seen = insert nonce later kept.seen })
