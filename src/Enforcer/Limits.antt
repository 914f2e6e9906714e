-- ===== src/Enforcer/Limits.antt =====
-- What PolicyEnforcer of bin/atel.mjs keeps: its lists, its rate and its load.
use atel_sdk.Base.{
  ℕ, ◌+◌, ◌≤◌, ◌<◌, String, ◌≡◌, ◌↔◌, false, not, ◌&&◌, none, List, [], ◌∷◌, includes, length,
  length-append, length-filter-le, ltb, arith,
}
use atel_sdk.Enforcer.{PolicyEnforcer, recent, check}

-- A request is allowed exactly when the sender is not blocked, is on the allow list if there is one,
-- fewer requests than the limit were allowed in the last minute, the payload is within its limit, and
-- fewer tasks run than may.
pub check_iff :
    (now : ℕ) (from : String) (size : ℕ) (e : PolicyEnforcer)
    → ((check now from size e).0 ≡ none) ↔ (
        ((ltb 0 (length e.policy.blocked_dids) && includes e.policy.blocked_dids from) ≡ false)
        × ((ltb 0 (length e.policy.allowed_dids) && not (includes e.policy.allowed_dids from))
            ≡ false)
        × (length (recent now e.request_log) < e.policy.rate_limit)
        × (size ≤ e.policy.max_payload_bytes)
        × (e.active_tasks < e.policy.max_concurrent))
unfolding check
check_iff now from size e = (λ h. ground arith, λ h. ground arith)

recent-le : (now : ℕ) (log : List ℕ) → length (recent now log) ≤ length log
unfolding recent
recent-le now log = length-filter-le (λ t. ltb now (t + 60000)) log

-- One request with its time, its sender and its size.
abbrev pub Request : Type 0
Request = ℕ × String × ℕ

abbrev pub check_all : List Request → PolicyEnforcer → PolicyEnforcer
check_all [] e = e
check_all ((now, from, size) ∷ requests) e = check_all requests (check now from size e).1

-- The log of allowed requests is within the limit.
abbrev pub WithinRate : PolicyEnforcer → Type 0
WithinRate e = length e.request_log ≤ e.policy.rate_limit

check-WithinRate :
    (now : ℕ) (from : String) (size : ℕ) (e : PolicyEnforcer)
    → WithinRate e
    → WithinRate (check now from size e).1
unfolding check
check-WithinRate now from size e h =
    ground
      (arith, h, recent-le now e.request_log, length-append (recent now e.request_log) (now ∷ []))

-- The log of allowed requests never holds more than the limit, whatever the requests and their times.
pub check_all-WithinRate :
    (requests : List Request) (e : PolicyEnforcer)
    → WithinRate e
    → WithinRate (check_all requests e)
check_all-WithinRate [] e h = h
check_all-WithinRate ((now, from, size) ∷ requests) e h =
    check_all-WithinRate requests _ (check-WithinRate now from size e h)
