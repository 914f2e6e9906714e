-- ===== src/Trace/Chain.antt =====
-- What `verify` of src/trace/index.ts checks, as a predicate on the events.
use atel_sdk.Base.{
  String, ◌≡◌, ◌↔◌, refl, true, ◌&&◌, List, [], ◌∷◌, ◌++◌, ok, arith, eq_iff, >>=-eq-ok,
  append-eq-nil,
}
use atel_sdk.Json.{str}
use atel_sdk.Identity.{Host, AgentIdentity, verify}
use atel_sdk.Trace.{
  TraceEvent, Trace, is_checkpoint, has_sig, sig_text, last_from, genesis_prev, compute_event_hash,
}
use atel_sdk.Trace.Verify.{prev_errors, hash_errors, sig_errors, verify_events, verify_chain}

prev_errors_iff : (p : String) (e : TraceEvent) → (prev_errors p e ≡ []) ↔ (e.prev ≡ p)
unfolding prev_errors
prev_errors_iff p e = ground (arith, eq_iff e.prev p)

module _ (host : Host) where
  -- A checkpoint with a signature is signed by the identity.
  abbrev pub IsAttested : AgentIdentity host → TraceEvent → Type 0
  IsAttested a e =
      (is_checkpoint e.type && has_sig e.sig) ≡ true
      → verify host (str e.hash) (sig_text e.sig) a.public_key ≡ ok true

  -- Each event names the hash before it, and its own hash is that of its content.
  abbrev pub IsLinked : AgentIdentity host → String → List TraceEvent → Type 0
  IsLinked a prev [] = Unit
  IsLinked a prev (e ∷ es) =
      (e.prev ≡ prev)
      × (compute_event_hash host e.seq e.ts e.type e.payload e.prev ≡ e.hash)
      × IsAttested a e
      × IsLinked a e.hash es

  pub IsLinked-append :
      (a : AgentIdentity host) (prev : String) (es : List TraceEvent) (e : TraceEvent)
      → IsLinked a prev es
      → IsLinked a (last_from prev es) (e ∷ [])
      → IsLinked a prev (es ++ e ∷ [])
  IsLinked-append a prev [] e h k = k
  IsLinked-append a prev (x ∷ es) e h k = (h.0, h.1, h.2, IsLinked-append a x.hash es e h.3 k)

  hash_errors_iff :
      (e : TraceEvent)
      → (hash_errors host e ≡ [])
        ↔ (compute_event_hash host e.seq e.ts e.type e.payload e.prev ≡ e.hash)
  unfolding hash_errors
  hash_errors_iff e =
      ground (arith, eq_iff (compute_event_hash host e.seq e.ts e.type e.payload e.prev) e.hash)

  sig_errors_iff :
      (a : AgentIdentity host) (e : TraceEvent) → (sig_errors host a e ≡ ok []) ↔ IsAttested a e
  unfolding sig_errors
  sig_errors_iff a e = (λ h k. ground arith, λ h. ground arith)

  verify_events_cons :
      (a : AgentIdentity host) (p : String) (e : TraceEvent) (es : List TraceEvent)
      → (verify_events host a p (e ∷ es) ≡ ok []) ↔ (
          (prev_errors p e ≡ [])
          × (hash_errors host e ≡ [])
          × (sig_errors host a e ≡ ok [])
          × (verify_events host a e.hash es ≡ ok []))
  unfolding verify_events
  verify_events_cons a p e es = (forward, λ (x, y, z, w). rw (x, y, z, w))
    where
      forward :
          verify_events host a p (e ∷ es) ≡ ok []
          → (prev_errors p e ≡ [])
            × (hash_errors host e ≡ [])
            × (sig_errors host a e ≡ ok [])
            × (verify_events host a e.hash es ≡ ok [])
      forward h =
          let (found, f, h') = >>=-eq-ok (sig_errors host a e) _ h in
          let (rest, r, all) = >>=-eq-ok (verify_events host a e.hash es) _ h' in
          let (m, w) =
            append-eq-nil (prev_errors p e ++ hash_errors host e ++ found) rest (cc all) in
          let (n, z) = append-eq-nil (prev_errors p e ++ hash_errors host e) found m in
          let (x, y) = append-eq-nil (prev_errors p e) (hash_errors host e) n in
          (x, y, cc (f, z), cc (r, w))

  verify_events_iff :
      (a : AgentIdentity host) (p : String) (es : List TraceEvent)
      → (verify_events host a p es ≡ ok []) ↔ IsLinked a p es
  verify_events_iff a p [] = (λ h. tt, λ h. unfold verify_events in refl)
  verify_events_iff a p (e ∷ es) = (
    λ h.
        let (x, y, z, w) = (verify_events_cons a p e es).0 h in
        (
          (prev_errors_iff p e).0 x,
          (hash_errors_iff e).0 y,
          (sig_errors_iff a e).0 z,
          (verify_events_iff a e.hash es).0 w,
        ),
    λ h. (verify_events_cons a p e es).1 (
      (prev_errors_iff p e).1 h.0,
      (hash_errors_iff e).1 h.1,
      (sig_errors_iff a e).1 h.2,
      (verify_events_iff a e.hash es).1 h.3,
    ),
  )

  -- `verify` reports no error exactly when every event names the hash of the event before it (the
  -- first the genesis value), carries the hash of its own content, and is properly signed if it is a
  -- checkpoint with a signature.
  pub verify_chain_iff :
      (t : Trace host) → (verify_chain host t ≡ ok []) ↔ IsLinked t.identity genesis_prev t.events
  unfolding verify_chain
  verify_chain_iff t = verify_events_iff t.identity genesis_prev t.events
