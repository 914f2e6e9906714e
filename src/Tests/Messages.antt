-- ===== src/Tests/Messages.antt =====
-- The theorems on messages, the nonce tracker and the endpoint at the toy host. At the
-- endpoint every text is read as the time 1000.
use atel_sdk.Base.{
  true, false, ℕ, ◌+◌, ◌≤◌, ◌<◌, ◌≡◌, ◌≢◌, refl, ap, String, Option, none, some, List, [], ◌∷◌, ok,
  lookup, insert, arith,
}
use atel_sdk.Json.{str}
use atel_sdk.Identity.{sign, verify}
use atel_sdk.Envelope.{
  Message, message_expired, new_nonce_tracker, check, evict, create_message, verify_message,
  check_header, check_timestamp, has_fields,
}
use atel_sdk.Envelope.Signed.{by_default, verify_message-create_message}
use atel_sdk.Envelope.Remembers.{answers, remembered, check_refines}
use atel_sdk.Endpoint.{
  Clock, Guard, RateLimiter, accepted, new_rate_limiter, check_rate, check_window, open_window,
  verify_incoming,
}
use atel_sdk.Endpoint.Replay.{arrive, verify_incoming_replay}
use atel_sdk.Tests.{toy, letters, letter_count, letters_round}

abbrev time_of : String → Option ℕ
time_of s = some 1000

abbrev hello : Message
hello = record {
  envelope = "atel.msg.v1";
  type = "error";
  from = "alice";
  to = "bob";
  timestamp = "t";
  nonce = "n1";
  payload = str "x";
  signature = letters 64;
}

abbrev read : String → Option ℕ
read s = some (letter_count s)

abbrev note : Message
note = record hello { timestamp = letters 5 }

noted : create_message toy (letters 5) "n1" "error" "alice" "bob" (str "x") 64 ≡ ok note
unfolding create_message sign
noted = refl

verify_message-create_message_example :
    (5 ≤ 7 + 30000 → 7 ≤ 5 + 300000 → verify_message toy read 7 note 32 by_default ≡ ok none)
    × (5 + 300000 < 7 → verify_message toy read 7 note 32 by_default ≡ ok (some message_expired))
verify_message-create_message_example =
    verify_message-create_message toy read letters (λ t. ap some (letters_round t)) 5 7 "n1" "error"
      "alice" "bob" (str "x") 64 note noted refl

abbrev clock_at : ℕ → Clock
clock_at t = record { rate = t; evict = t; record_at = t; fresh = t }

abbrev guard : Guard
guard = record { limiter = new_rate_limiter none none; tracker = new_nonce_tracker none }

was : (verify_incoming toy time_of (clock_at 1000) hello (some 32) guard).0 ≡ ok accepted
unfolding verify_incoming check_rate check_window open_window check evict verify_message
    check_header check_timestamp has_fields new_rate_limiter new_nonce_tracker verify lookup
was = refl

aged : guard.tracker.max_age_ms ≡ 600000
unfolding new_nonce_tracker
aged = refl

abbrev between : List (Clock × Message × Option ℕ)
between = (clock_at 2000, record hello { nonce = "n2" }, none) ∷ []

verify_incoming_replay_example :
    (verify_incoming toy time_of (clock_at 5000) hello none (
      arrive toy time_of between
        (verify_incoming toy time_of (clock_at 1000) hello (some 32) guard).1)).0
    ≢ ok accepted
verify_incoming_replay_example =
    verify_incoming_replay toy time_of (clock_at 1000) (clock_at 5000) hello (some 32) none between
      guard aged was (omega arith) (omega arith, tt) (omega arith)

abbrev limiter : RateLimiter
limiter = record {
  windows = insert "alice" (record { count = 1; reset_at = 60000 }) [];
  max_requests = 2;
  window_ms = 60000;
}

limiter_window : lookup "alice" limiter.windows ≡ some (record { count = 1; reset_at = 60000 })
unfolding lookup insert
limiter_window = refl

abbrev requests : List (ℕ × String)
requests = (100, "alice") ∷ (200, "bob") ∷ (300, "alice") ∷ []

-- The second check comes within the age of 10, the third after it.
check_refines_example :
    answers ((1, 2, "n") ∷ (5, 5, "n") ∷ (20, 20, "n") ∷ []) (new_nonce_tracker (some 10))
    ≡ remembered
        (new_nonce_tracker (some 10)).max_age_ms
        ((1, 2, "n") ∷ (5, 5, "n") ∷ (20, 20, "n") ∷ [])
        []
check_refines_example =
    check_refines (some 10) ((1, 2, "n") ∷ (5, 5, "n") ∷ (20, 20, "n") ∷ [])
      (omega arith, (omega arith, (omega arith, tt)))

replayed :
    answers ((1, 2, "n") ∷ (5, 5, "n") ∷ (20, 20, "n") ∷ []) (new_nonce_tracker (some 10))
    ≡ true ∷ false ∷ true ∷ []
unfolding new_nonce_tracker check evict lookup insert
replayed = refl
