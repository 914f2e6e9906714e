-- ===== src/Trace/Steps.antt =====
-- The operations of src/trace/index.ts, and the soundness of the trace.
use atel_sdk.Base.{
  ℕ, suc, ◌+◌, String, ◌≡◌, refl, Bool, true, ◌||◌, Option, none, List, [], ◌∷◌, ◌++◌, ok, err,
  Result, arith, length, length-append, if-elim,
}
use atel_sdk.Json.{Value, str}
use atel_sdk.Json.Canonical.{same}
use atel_sdk.Identity.{Host, IdentityError, AgentIdentity, sign}
use atel_sdk.Identity.Signing.{verify-sign}
use atel_sdk.Identity.Rotation.{IsSound}
use atel_sdk.Trace.{
  TraceEvent, TraceEventType, Trace, checkpoint_event, task_result, task_failed, last_hash,
  genesis_prev, new_trace, make_event, push_event, checkpoint_data, signed_checkpoint, checkpoint,
  after_checkpoint, append, close_finalized, finalize, close_failed, fail, Outcome,
  compute_event_hash,
}
use atel_sdk.Trace.Chain.{IsLinked, IsLinked-append}

-- Event number i of a trace has sequence number i.
abbrev pub IsNumbered : ℕ → List TraceEvent → Type 0
IsNumbered n [] = Unit
IsNumbered n (e ∷ es) = (e.seq ≡ n) × IsNumbered (suc n) es

IsNumbered-append :
    (n : ℕ) (es : List TraceEvent) (e : TraceEvent)
    → IsNumbered n es
    → e.seq ≡ n + length es
    → IsNumbered n (es ++ e ∷ [])
IsNumbered-append n [] e h k = (omega arith, tt)
IsNumbered-append n (x ∷ es) e h k = (h.0, IsNumbered-append (suc n) es e h.1 (omega arith))

module _ (host : Host) where
  -- The identity is sound, the chain verifies, events are numbered from 0 without gaps, the next
  -- number is their count, and with auto-save the file holds a line for each of them.
  pub record IsIntact (t : Trace host) : Type 0 where
    pub owner : IsSound host t.identity
    pub linked : IsLinked host t.identity genesis_prev t.events
    pub numbered : IsNumbered 0 t.events
    pub counted : t.seq ≡ length t.events
    pub saved : t.auto_save ≡ true → t.file ≡ t.events

  -- An operation's outcome leaves an intact trace, whether it returned or threw.
  abbrev pub OutcomeIsIntact : {A : Type 0} → Outcome host A → Type 0
  OutcomeIsIntact r = IsIntact r.1

  pub new_trace-IsIntact :
      (task_id : String) (a : AgentIdentity host) (interval : Option ℕ) (auto_save : Bool)
      → IsSound host a
      → IsIntact (new_trace host task_id a interval auto_save)
  unfolding new_trace
  new_trace-IsIntact task_id a interval auto_save sound = record {
    owner = sound;
    linked = tt;
    numbered = tt;
    counted = refl;
    saved = λ _. refl;
  }

  push_event-IsIntact :
      (t : Trace host) (e : TraceEvent) (since : ℕ)
      → IsIntact t
      → IsLinked host t.identity (last_hash t.events) (e ∷ [])
      → e.seq ≡ t.seq
      → IsIntact (push_event host t e since)
  unfolding push_event
  push_event-IsIntact t e since h link number = record {
    owner = h.owner;
    linked = IsLinked-append host t.identity genesis_prev t.events e h.linked link;
    numbered = IsNumbered-append 0 t.events e h.numbered (omega (arith, h.counted));
    counted = omega (arith, h.counted, length-append t.events (e ∷ []));
    saved = λ on. rw (on, h.saved on);
  }

  -- The event of `make_event` carries the hash of its own content.
  made-hash :
      (t : Trace host) (ts : String) (type : TraceEventType) (payload : Value) (sig : Option String)
      → let e = make_event host t ts type payload sig in
        compute_event_hash host e.seq e.ts e.type e.payload e.prev ≡ e.hash
  unfolding make_event
  made-hash t ts type payload sig = refl

  made-IsLinked :
      (t : Trace host) (ts : String) (type : TraceEventType) (payload : Value)
      → IsLinked host t.identity (last_hash t.events) (make_event host t ts type payload none ∷ [])
  unfolding make_event
  made-IsLinked t ts type payload = (refl, refl, λ attested. ground arith, tt)

  signed_checkpoint-IsIntact :
      (ts : String) (payload : Value) (t : Trace host) (signed : Result IdentityError String)
      → IsIntact t
      → sign host
          (str (make_event host t ts checkpoint_event payload none).hash)
          t.identity.secret_key
        ≡ signed
      → IsIntact
          (signed_checkpoint host t (make_event host t ts checkpoint_event payload none) signed).1
  unfolding make_event
  signed_checkpoint-IsIntact ts payload t (err e) h made = h
  signed_checkpoint-IsIntact ts payload t (ok sig) h made =
      push_event-IsIntact t _ 0 h
        (refl, refl, λ attested. rw h.owner.paired (verify-sign host _ _ _ sig (same _) made), tt)
        refl

  -- A checkpoint, made or refused, keeps the trace intact.
  pub checkpoint-IsIntact :
      (ts : String) (t : Trace host) → IsIntact t → IsIntact (checkpoint host ts t).1
  unfolding checkpoint
  checkpoint-IsIntact ts t h =
      if-elim OutcomeIsIntact (t.finalized || t.failed) h
        (signed_checkpoint-IsIntact ts (checkpoint_data host t) t _ h refl)

  after_checkpoint-IsIntact :
      (e : TraceEvent) (r : Outcome host TraceEvent)
      → OutcomeIsIntact r
      → OutcomeIsIntact (after_checkpoint host e r)
  after_checkpoint-IsIntact e (ok c, t) h = h
  after_checkpoint-IsIntact e (err x, t) h = h

  pushed-IsIntact :
      (ts : String) (type : TraceEventType) (payload : Value) (t : Trace host)
      → IsIntact t
      → IsIntact
          (push_event host t (make_event host t ts type payload none) (t.since_checkpoint + 1))
  pushed-IsIntact ts type payload t h =
      push_event-IsIntact t _ _ h (made-IsLinked t ts type payload) (unfold make_event in refl)

  -- Appending an event, with the checkpoint that it may bring, keeps the trace intact also when it throws.
  pub append-IsIntact :
      (ts later : String) (type : TraceEventType) (payload : Value) (t : Trace host)
      → IsIntact t
      → IsIntact (append host ts later type payload t).1
  unfolding append
  append-IsIntact ts later type payload t h =
      let intact = pushed-IsIntact ts type payload t h in
      if-elim OutcomeIsIntact t.finalized h (
        if-elim OutcomeIsIntact t.failed h (
          if-elim OutcomeIsIntact _
            (after_checkpoint-IsIntact _ _ (checkpoint-IsIntact later _ intact)) intact))

  close_finalized-IsIntact :
      (r : Outcome host TraceEvent) → IsIntact r.1 → IsIntact (close_finalized host r).1
  close_finalized-IsIntact (ok e, t) h = record {
    owner = h.owner;
    linked = h.linked;
    numbered = h.numbered;
    counted = h.counted;
    saved = h.saved;
  }
  close_finalized-IsIntact (err e, t) h = h

  close_failed-IsIntact :
      (r : Outcome host TraceEvent) → IsIntact r.1 → IsIntact (close_failed host r).1
  close_failed-IsIntact (ok e, t) h = record {
    owner = h.owner;
    linked = h.linked;
    numbered = h.numbered;
    counted = h.counted;
    saved = h.saved;
  }
  close_failed-IsIntact (err e, t) h = h

  -- Finalizing keeps the trace intact, also when it throws.
  pub finalize-IsIntact :
      (ts later : String) (result : Value) (t : Trace host)
      → IsIntact t
      → IsIntact (finalize host ts later result t).1
  unfolding finalize
  finalize-IsIntact ts later result t h = if-elim OutcomeIsIntact t.finalized h (
      if-elim OutcomeIsIntact t.failed h
        (close_finalized-IsIntact _ (append-IsIntact ts later task_result result t h)))

  -- Failing keeps the trace intact, also when it throws.
  pub fail-IsIntact :
      (ts later : String) (error : Value) (t : Trace host)
      → IsIntact t
      → IsIntact (fail host ts later error t).1
  unfolding fail
  fail-IsIntact ts later error t h = if-elim OutcomeIsIntact t.finalized h (
      if-elim OutcomeIsIntact t.failed h
        (close_failed-IsIntact _ (append-IsIntact ts later task_failed error t h)))
