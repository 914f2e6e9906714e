-- ===== src/Policy/Consent.antt =====
-- Minting and verifying consent tokens of src/policy/index.ts.
use atel_sdk.Base.{ℕ, ◌+◌, ◌<◌, ◌≤◌, String, ◌≡◌, true, List, ok, err, arith}
use atel_sdk.Json.{str}
use atel_sdk.Json.Canonical.{same}
use atel_sdk.Identity.{Host, sign, verify}
use atel_sdk.Identity.Signing.{verify-sign}
use atel_sdk.Schema.{RiskLevel}
use atel_sdk.Policy.{
  ConsentToken, consent_body, unsigned_token, sign_body, mint_consent_token, verify_consent_token,
  secret, expired,
}

module _ (host : Host) where
  open host use {Bytes, public_of}

  minted-parts :
      (now : ℕ) (nonce issuer executor : String) (scopes : List String) (max_calls ttl_sec : ℕ)
      (ceiling : RiskLevel) (key : Bytes) (token : ConsentToken)
      → mint_consent_token host now nonce issuer executor scopes max_calls ttl_sec ceiling
          (secret key)
        ≡ ok token
      → (token.scopes ≡ scopes)
        × (1 ≤ max_calls)
        × (1 ≤ ttl_sec)
        × (token.iat ≡ now)
        × (token.exp ≡ now + ttl_sec)
        × (sign host (str (consent_body token)) key ≡ ok token.sig)
  unfolding mint_consent_token sign_body unsigned_token consent_body
  minted-parts now nonce issuer executor scopes max_calls ttl_sec ceiling key token h = ground arith

  -- A minted token verifies under the issuer's public key from the second it was minted until its
  -- time to live has passed, and from then on it is refused as expired.
  pub verify_consent_token-mint :
      (now later : ℕ) (nonce issuer executor : String) (scopes : List String)
      (max_calls ttl_sec : ℕ) (ceiling : RiskLevel) (key : Bytes) (token : ConsentToken)
      → mint_consent_token host now nonce issuer executor scopes max_calls ttl_sec ceiling
          (secret key)
        ≡ ok token
      → (now ≤ later
          → later < now + ttl_sec
          → verify_consent_token host later token (public_of key) ≡ ok true)
        × (now + ttl_sec ≤ later
            → verify_consent_token host later token (public_of key) ≡ err expired)
  unfolding verify_consent_token
  verify_consent_token-mint now later nonce issuer executor scopes max_calls ttl_sec ceiling key
        token h =
      let (_, _, _, since, until, signed) =
        minted-parts now nonce issuer executor scopes max_calls ttl_sec ceiling key token h in
      let valid : verify host (str (consent_body token)) token.sig (public_of key) ≡ ok true =
        verify-sign host _ _ key token.sig (same _) signed in
      (λ a b. ground (arith, valid, since, until), λ a. ground (arith, valid, since, until))
