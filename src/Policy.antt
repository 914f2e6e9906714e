-- ===== src/Policy.antt =====
-- Consent tokens and the PolicyEngine of src/policy/index.ts. The times are in seconds, as
-- `Math.floor(Date.now() / 1000)` gives them, and each call takes the time that it reads.
pub mod Scopes
pub mod Decisions
pub mod Consent
use atel_sdk.Base.{
  ℕ, ◌+◌, ◌-◌, String, Bool, true, false, not, ◌||◌, List, [], ◌∷◌, Result, ok, err, ◌>>=◌, ◌>>◌,
  throw_if, map_err, concat, eqb, ltb, leb, length, some_of, every_of, starts_with, ◌==◌,
  if◌then◌else◌,
}
use atel_sdk.Json.{Value, Items, nil, cons, str, num, arr, obj, end, field, serialize_payload}
use atel_sdk.Identity.{Host, IdentityError, sign, verify}
use atel_sdk.Schema.{RiskLevel, low, medium, high, critical, risk_order}

pub record ConsentToken : Type 0 where
  pub iss : String
  pub sub : String
  pub scopes : List String
  pub max_calls : ℕ
  pub ttl_sec : ℕ
  pub risk_ceiling : RiskLevel
  pub nonce : String
  pub iat : ℕ
  pub exp : ℕ
  pub sig : String

pub record ProposedAction : Type 0 where
  pub tool : String
  pub method : String
  pub data_scope : String

pub data PolicyDecision : Type 0 where
  allow deny needs_confirm : PolicyDecision

pub data ConsentError : Type 0 where
  no_scope no_calls no_ttl invalid_signature expired issued_in_future : ConsentError
  signature_error : IdentityError → ConsentError

unfoldable pub scope_matches : String → String → Bool
scope_matches granted requested = granted == requested || starts_with requested (concat granted ":")

abbrev pub action_to_scopes : ProposedAction → List String
action_to_scopes action =
    concat "tool:" (concat action.tool (concat ":" action.method))
    ∷ concat "data:" action.data_scope
    ∷ []

abbrev pub risk_text : RiskLevel → String
risk_text low = "low"
risk_text medium = "medium"
risk_text high = "high"
risk_text critical = "critical"

abbrev pub scope_items : List String → Items
scope_items [] = nil
scope_items (s ∷ scopes) = cons (str s) (scope_items scopes)

-- The text that is signed: everything but the signature.
unfoldable pub consent_body : ConsentToken → String
consent_body t = serialize_payload (
    obj (
      field "iss" (str t.iss) (
        field "sub" (str t.sub) (
          field "scopes" (arr (scope_items t.scopes)) (
            field "constraints"
              (obj (field "max_calls" (num t.max_calls) (field "ttl_sec" (num t.ttl_sec) end)))
              (field "risk_ceiling" (str (risk_text t.risk_ceiling)) (
                field "nonce" (str t.nonce)
                  (field "iat" (num t.iat) (field "exp" (num t.exp) end)))))))))

pub record PolicyEngine : Type 0 where
  pub token : ConsentToken
  pub call_count : ℕ

unfoldable pub is_expired : ℕ → PolicyEngine → Bool
is_expired now engine = leb engine.token.exp now

abbrev pub covered : List String → String → Bool
covered scopes required = some_of (λ granted. scope_matches granted required) scopes

unfoldable pub evaluate : ℕ → ProposedAction → RiskLevel → PolicyEngine → PolicyDecision
evaluate now action risk engine =
    let wanted = risk_order risk in
    let ceiling = risk_order engine.token.risk_ceiling in
    if is_expired now engine
    then deny
    else if leb engine.token.max_calls engine.call_count
    then deny
    else if ltb ceiling wanted
    then (if eqb wanted (ceiling + 1) then needs_confirm else deny)
    else if every_of (covered engine.token.scopes) (action_to_scopes action)
    then allow
    else deny

-- `none` is the throw of "Call limit exceeded".
pub data PolicyError : Type 0 where
  call_limit_exceeded : PolicyError

unfoldable pub record_call : PolicyEngine → Result PolicyError PolicyEngine
record_call engine =
    if leb engine.token.max_calls engine.call_count
    then err call_limit_exceeded
    else ok (record engine { call_count = engine.call_count + 1 })

-- `Math.max(0, max_calls - callCount)`
unfoldable pub get_remaining_calls : PolicyEngine → ℕ
get_remaining_calls engine = engine.token.max_calls - engine.call_count

unfoldable pub new_engine : ConsentToken → PolicyEngine
new_engine token = record { token = token; call_count = 0 }

-- The token before it is signed.
unfoldable pub unsigned_token :
    ℕ → String → String → String → List String → ℕ → ℕ → RiskLevel → ConsentToken
unsigned_token now nonce issuer executor scopes max_calls ttl_sec risk_ceiling = record {
  iss = issuer;
  sub = executor;
  scopes = scopes;
  max_calls = max_calls;
  ttl_sec = ttl_sec;
  risk_ceiling = risk_ceiling;
  nonce = nonce;
  iat = now;
  exp = now + ttl_sec;
  sig = "";
}

module _ (host : Host) where
  open host use {Bytes, base64_encode}

  -- Either the issuer's secret key, or a function that signs the body's bytes.
  pub data Signer : Type 0 where
    secret : Bytes → Signer
    delegated : (String → Bytes) → Signer

  unfoldable pub sign_body : Signer → String → Result ConsentError String
  sign_body (delegated signer) body = ok (base64_encode (signer body))
  sign_body (secret key) body = map_err signature_error (sign host (str body) key)

  unfoldable pub mint_consent_token :
      ℕ
      → String
      → String
      → String
      → List String
      → ℕ
      → ℕ
      → RiskLevel
      → Signer
      → Result ConsentError ConsentToken
  mint_consent_token now nonce issuer executor scopes max_calls ttl_sec risk_ceiling signer = do
    throw_if (eqb (length scopes) 0) no_scope
    throw_if (ltb max_calls 1) no_calls
    throw_if (ltb ttl_sec 1) no_ttl
    let token = unsigned_token now nonce issuer executor scopes max_calls ttl_sec risk_ceiling
    sig ← sign_body signer (consent_body token)
    ok (record token { sig = sig })

  unfoldable pub verify_consent_token : ℕ → ConsentToken → Bytes → Result ConsentError Bool
  verify_consent_token now token issuer_public_key = do
    valid ←
        map_err signature_error (verify host (str (consent_body token)) token.sig issuer_public_key)
    throw_if (not valid) invalid_signature
    throw_if (leb token.exp now) expired
    throw_if (ltb now token.iat) issued_in_future
    ok true
