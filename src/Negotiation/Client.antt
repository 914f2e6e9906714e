-- ===== src/Negotiation/Client.antt =====
-- NegotiationClient of src/negotiation/index.ts. `fetch` is the HTTP call: it answers, or throws a text, as it
-- does when the timeout aborts it. The nonces and times that messages draw are arguments.
use atel_sdk.Base.{
  ℕ, String, Bool, true, false, Option, none, some, List, [], ◌∷◌, Result, ok, err, ◌>>=◌, filter,
  leb, concat, if◌then◌else◌,
}
use atel_sdk.Identity.{Host, IdentityError}
use atel_sdk.Envelope.{Message, create_message}
use atel_sdk.Negotiation.{
  NegotiationRequest, NegotiationResponse, NegotiationResult, ExecutionTerms, Reason,
  request_failed, thrown, request_value,
}

-- What the HTTP call returns: a body when the status is ok, and the status otherwise.
pub data HttpAnswer : Type 0 where
  body : NegotiationResponse → HttpAnswer
  status : ℕ → HttpAnswer

abbrev pub failed : String → Reason → NegotiationResult
failed did reason = record {
  success = false;
  agreed_terms = none;
  reason = some reason;
  executor_did = did;
}

unfoldable pub result_of : String → Result String HttpAnswer → NegotiationResult
result_of did (err text) = failed did (thrown text)
result_of did (ok (status code)) = failed did (request_failed code)
result_of did (ok (body r)) = record {
  success = r.can_handle;
  agreed_terms = r.terms;
  reason = r.reason;
  executor_did = did;
}

pub record Candidate : Type 0 where
  pub endpoint : String
  pub did : String
  -- what the message to it draws
  pub timestamp : String
  pub nonce : String

-- A missing cost is Infinity.
abbrev pub cost_or_infinity : Option ExecutionTerms → Option ℕ
cost_or_infinity none = none
cost_or_infinity (some terms) = terms.estimated_cost

-- costA - costB is not above 0; where both are infinite it is NaN, which counts as 0
abbrev pub not_dearer : Option ℕ → Option ℕ → Bool
not_dearer a none = true
not_dearer none (some b) = false
not_dearer (some a) (some b) = leb a b

-- The stable sort by cost.
unfoldable pub insert_by_cost : NegotiationResult → List NegotiationResult → List NegotiationResult
insert_by_cost r [] = r ∷ []
insert_by_cost r (s ∷ rest) =
    if not_dearer (cost_or_infinity r.agreed_terms) (cost_or_infinity s.agreed_terms)
    then r ∷ s ∷ rest
    else s ∷ insert_by_cost r rest

unfoldable pub sort_by_cost : List NegotiationResult → List NegotiationResult
sort_by_cost [] = []
sort_by_cost (r ∷ results) = insert_by_cost r (sort_by_cost results)

abbrev pub first_of {ℓ} : {A : Type ℓ} → List A → Option A
first_of [] = none
first_of (x ∷ xs) = some x

-- negotiateBest, once every candidate has answered
unfoldable pub pick_best : List NegotiationResult → Option NegotiationResult
pick_best results = first_of (sort_by_cost (filter (λ r. r.success) results))

module _ (host : Host) (fetch : String → Message → Result String HttpAnswer) where
  open host use {Bytes}

  unfoldable pub negotiate :
      String → Bytes → NegotiationRequest → Candidate → Result IdentityError NegotiationResult
  negotiate did secret_key request c = do
    message ←
        create_message host c.timestamp c.nonce "capability_query" did c.did (request_value request)
          secret_key
    ok (result_of c.did (fetch (concat c.endpoint "/atel/v1/capability/negotiate") message))

  -- Promise.all over the candidates
  unfoldable pub negotiate_all :
      String
      → Bytes
      → NegotiationRequest
      → List Candidate
      → Result IdentityError (List NegotiationResult)
  negotiate_all did secret_key request [] = ok []
  negotiate_all did secret_key request (c ∷ candidates) = do
    result ← negotiate did secret_key request c
    results ← negotiate_all did secret_key request candidates
    ok (result ∷ results)

  unfoldable pub negotiate_best :
      String
      → Bytes
      → NegotiationRequest
      → List Candidate
      → Result IdentityError (Option NegotiationResult)
  negotiate_best did secret_key request candidates = do
    results ← negotiate_all did secret_key request candidates
    ok (pick_best results)
