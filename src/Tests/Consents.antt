-- ===== src/Tests/Consents.antt =====
-- The theorems on consent tokens and policy decisions at concrete tokens.
use atel_sdk.Base.{◌+◌, ◌≤◌, ◌≡◌, ◌↔◌, refl, true, false, [], ◌∷◌, ok, every_of}
use atel_sdk.Identity.{sign}
use atel_sdk.Schema.{medium, high, risk_order}
use atel_sdk.Policy.{
  ConsentToken, PolicyEngine, PolicyError, ProposedAction, allow, needs_confirm, expired,
  scope_matches, covered, action_to_scopes, evaluate, record_call, get_remaining_calls,
  unsigned_token, sign_body, mint_consent_token, verify_consent_token, secret,
}
use atel_sdk.Policy.Decisions.{IsOpen, evaluate_iff}
use atel_sdk.Tests.{toy, letters}

not_covered : scope_matches "tool:http" "tool:https" ≡ false
unfolding scope_matches
not_covered = refl

abbrev token : ConsentToken
token = record (unsigned_token 100 "n" "alice" "bob" ("tool:http" ∷ "data:web" ∷ []) 2 60 medium) {
  sig = letters 64;
}

minted :
    mint_consent_token toy 100 "n" "alice" "bob"
      ("tool:http" ∷ "data:web" ∷ [])
      2
      60
      medium
      (secret 64)
    ≡ ok token
unfolding mint_consent_token sign_body sign
minted = refl

abbrev engine : PolicyEngine
engine = record { token = token; call_count = 1 }

abbrev get_page : ProposedAction
get_page = record { tool = "http"; method = "get"; data_scope = "web:read" }

allowed : evaluate 120 get_page medium engine ≡ allow
unfolding evaluate atel_sdk.Policy.is_expired unsigned_token scope_matches
allowed = refl

evaluate_iff_example :
    ((evaluate 120 get_page high engine ≡ allow) ↔ (
      IsOpen 120 engine
      × (risk_order high ≤ risk_order engine.token.risk_ceiling)
      × (every_of (covered engine.token.scopes) (action_to_scopes get_page) ≡ true)))
    × ((evaluate 120 get_page high engine ≡ needs_confirm)
        ↔ (IsOpen 120 engine × (risk_order high ≡ risk_order engine.token.risk_ceiling + 1)))
evaluate_iff_example = evaluate_iff 120 get_page high engine
