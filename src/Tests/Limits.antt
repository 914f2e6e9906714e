-- ===== src/Tests/Limits.antt =====
-- The theorems on the enforcer and on trust at a concrete policy.
use atel_sdk.Base.{◌≤◌, ◌<◌, ◌≡◌, ◌↔◌, refl, false, none, List, [], ◌∷◌, ◌==◌}
use atel_sdk.Schema.{low, medium}
use atel_sdk.Enforcer.{EnforcerPolicy, PolicyEnforcer, TrustPolicy, check, recent, check_trust}
use atel_sdk.Enforcer.Limits.{Request}
use atel_sdk.Enforcer.Trust.{wanted_score, check_trust_iff}

abbrev limits : EnforcerPolicy
limits = record {
  blocked_dids = "eve" ∷ [];
  allowed_dids = [];
  rate_limit = 1;
  max_payload_bytes = 100;
  max_concurrent = 2;
}

abbrev enforcer : PolicyEnforcer
enforcer = record { policy = limits; request_log = 1000 ∷ []; active_tasks = 0 }

-- The request of a minute ago no longer counts.
again : (check 61000 "bob" 10 enforcer).0 ≡ none
unfolding check recent
again = refl

abbrev requests : List Request
requests = (2000, "bob", 10) ∷ (61000, "eve", 10) ∷ (61000, "bob", 10) ∷ []

abbrev trust : TrustPolicy
trust = record { new_agent_policy = "allow_all"; risk_threshold = λ risk. 5000 }

check_trust_iff_example :
    ((0 < 3)
      → (check_trust false trust 3 7000 medium ≡ none)
        ↔ ((trust.risk_threshold medium ≤ 7000) × (wanted_score medium ≤ 7000)))
    × ((check_trust false trust 0 0 medium ≡ none)
        ↔ ((medium ≡ low) × ((trust.new_agent_policy == "deny") ≡ false)))
check_trust_iff_example = check_trust_iff trust 3 7000 medium
