-- ===== src/Endpoint.antt =====
-- How the endpoint of src/endpoint/index.ts admits a message: its rate limiter, the nonce tracker and
-- `verifyIncoming`. The HTTP server around it is left out.
pub mod Replay
pub mod Rate
use atel_sdk.Base.{
  ℕ, ◌+◌, String, Bool, true, false, Option, none, some, List, [], ◌∷◌, Result, ok, err, Map,
  lookup, insert, ltb, leb, if◌then◌else◌,
}
use atel_sdk.Identity.{Host, IdentityError, parse_did}
use atel_sdk.Envelope.{Message, MessageFault, VerifyOptions, NonceTracker, check, verify_message}

pub record Window : Type 0 where
  pub count : ℕ
  pub reset_at : ℕ

pub record RateLimiter : Type 0 where
  pub windows : Map Window
  pub max_requests : ℕ
  pub window_ms : ℕ

abbrev pub or_number : Option ℕ → ℕ → ℕ
or_number none fallback = fallback
or_number (some n) fallback = n

unfoldable pub new_rate_limiter : Option ℕ → Option ℕ → RateLimiter
new_rate_limiter max_requests window_ms = record {
  windows = [];
  max_requests = or_number max_requests 100;
  window_ms = or_number window_ms 60000;
}

unfoldable pub open_window : ℕ → String → RateLimiter → RateLimiter
open_window now key l = record l {
  windows = insert key (record { count = 1; reset_at = now + l.window_ms }) l.windows;
}

-- With the window of the key, if it has one.
unfoldable pub check_window : ℕ → String → RateLimiter → Option Window → Bool × RateLimiter
check_window now key l none = (true, open_window now key l)
check_window now key l (some w) =
    if ltb w.reset_at now
    then (true, open_window now key l)
    else if leb l.max_requests w.count
    then (false, l)
    else (true, record l { windows = insert key (record w { count = w.count + 1 }) l.windows })

-- RateLimiter.check
unfoldable pub check_rate : ℕ → String → RateLimiter → Bool × RateLimiter
check_rate now key l = check_window now key l (lookup key l.windows)

-- Why a message is turned away, or `accepted`.
pub data Verdict : Type 0 where
  accepted rate_limit_exceeded replay_detected unresolved_sender : Verdict
  invalid_message : MessageFault → Verdict

pub record Guard : Type 0 where
  pub limiter : RateLimiter
  pub tracker : NonceTracker

-- The clock as one call reads it: by the limiter, the eviction, the recording and the freshness check.
pub record Clock : Type 0 where
  pub rate : ℕ
  pub evict : ℕ
  pub record_at : ℕ
  pub fresh : ℕ

abbrev pub default_options : VerifyOptions
default_options = record { max_age_ms = none; skip_timestamp_check = false }

abbrev pub verdict_of : Option MessageFault → Verdict
verdict_of none = accepted
verdict_of (some fault) = invalid_message fault

module _ (host : Host) (time_of : String → Option ℕ) where
  open host use {Bytes}

  -- The sender's key: the handshake session's, or the one in the DID.
  abbrev pub with_key : Clock → Message → Result IdentityError Bytes → Result IdentityError Verdict
  with_key clock m (err e) = ok unresolved_sender
  with_key clock m (ok key) = elim (verify_message host time_of clock.fresh m key default_options) [
    | ok fault ↦ ok (verdict_of fault)
    | err e ↦ err e
  ]

  abbrev pub sender_key : Message → Option Bytes → Result IdentityError Bytes
  sender_key m (some key) = ok key
  sender_key m none = parse_did host m.from

  -- `session` is the key of the sender's handshake session, if there is one.
  unfoldable pub verify_incoming :
      Clock → Message → Option Bytes → Guard → Result IdentityError Verdict × Guard
  verify_incoming clock m session g =
      let limited = check_rate clock.rate m.from g.limiter in
      let seen = check clock.evict clock.record_at m.nonce g.tracker in
      if limited.0
      then (if seen.0
          then (
            with_key clock m (sender_key m session),
            record { limiter = limited.1; tracker = seen.1 },
          )
          else (ok replay_detected, record { limiter = limited.1; tracker = seen.1 }))
      else (ok rate_limit_exceeded, record g { limiter = limited.1 })
