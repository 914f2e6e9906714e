-- ===== src/Trace/Verify.antt =====
-- `verify` of the class ExecutionTrace of src/trace/index.ts.
use atel_sdk.Base.{ℕ, String, ◌&&◌, List, [], ◌∷◌, ◌++◌, Result, ok, ◌>>=◌, ◌==◌, if◌then◌else◌}
use atel_sdk.Json.{str}
use atel_sdk.Identity.{Host, IdentityError, AgentIdentity, verify}
use atel_sdk.Trace.{
  TraceEvent, Trace, is_checkpoint, has_sig, sig_text, genesis_prev, compute_event_hash,
}

-- The messages that `verify` collects.
pub data ChainError : Type 0 where
  prev_mismatch hash_mismatch : ℕ → String → String → ChainError
  bad_checkpoint_signature : ℕ → ChainError

-- One round of `verify`: the messages about one event.
unfoldable pub prev_errors : String → TraceEvent → List ChainError
prev_errors expected e = if e.prev == expected then [] else prev_mismatch e.seq expected e.prev ∷ []

module _ (host : Host) where
  unfoldable pub hash_errors : TraceEvent → List ChainError
  hash_errors e =
      let recomputed = compute_event_hash host e.seq e.ts e.type e.payload e.prev in
      if recomputed == e.hash then [] else hash_mismatch e.seq recomputed e.hash ∷ []

  unfoldable pub sig_errors :
      AgentIdentity host → TraceEvent → Result IdentityError (List ChainError)
  sig_errors identity e =
      if is_checkpoint e.type && has_sig e.sig
      then (do
        valid ← verify host (str e.hash) (sig_text e.sig) identity.public_key
        ok (if valid then [] else bad_checkpoint_signature e.seq ∷ []))
      else ok []

  unfoldable pub verify_events :
      AgentIdentity host → String → List TraceEvent → Result IdentityError (List ChainError)
  verify_events identity expected [] = ok []
  verify_events identity expected (e ∷ es) = do
    found ← sig_errors identity e
    rest ← verify_events identity e.hash es
    ok (prev_errors expected e ++ hash_errors e ++ found ++ rest)

  -- The errors that `verify` reports; the chain is valid when there are none.
  unfoldable pub verify_chain : Trace host → Result IdentityError (List ChainError)
  verify_chain t = verify_events t.identity genesis_prev t.events
