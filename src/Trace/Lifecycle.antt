-- ===== src/Trace/Lifecycle.antt =====
-- The life of an ExecutionTrace of src/trace/index.ts: open, then finalized or failed for good.
use atel_sdk.Base.{
  String, ◌≡◌, inl, inr, refl, List, [], ◌∷◌, ok, err, ◌||◌, true, false, arith, Bool-cases, is_ok,
}
use atel_sdk.Json.{Value}
use atel_sdk.Identity.{Host}
use atel_sdk.Trace.{
  TraceEventType, TraceEvent, Trace, Outcome, push_event, checkpoint, append, finalize, fail,
  close_finalized, task_result,
}
use atel_sdk.Trace.Runs.{Call, append_call, checkpoint_call, finalize_call, fail_call, step, run}

module _ (host : Host) where
  abbrev pub IsClosed : Trace host → Type 0
  IsClosed t = (t.finalized || t.failed) ≡ true

  -- The call threw and changed nothing.
  abbrev pub Refused : {A : Type 0} → Trace host → Outcome host A → Type 0
  Refused t r = (is_ok r.0 ≡ false) × (r.1 ≡ t)

  append-Refused :
      (ts later : String) (type : TraceEventType) (payload : Value) (t : Trace host)
      → IsClosed t
      → Refused t (append host ts later type payload t)
  unfolding append
  append-Refused ts later type payload t h = ground arith

  checkpoint-Refused :
      (ts : String) (t : Trace host) → IsClosed t → Refused t (checkpoint host ts t)
  unfolding checkpoint
  checkpoint-Refused ts t h = ground arith

  finalize-Refused :
      (ts later : String) (result : Value) (t : Trace host)
      → IsClosed t
      → Refused t (finalize host ts later result t)
  unfolding finalize
  finalize-Refused ts later result t h = ground arith

  fail-Refused :
      (ts later : String) (error : Value) (t : Trace host)
      → IsClosed t
      → Refused t (fail host ts later error t)
  unfolding fail
  fail-Refused ts later error t h = ground arith

  step-closed : (call : Call) (t : Trace host) → IsClosed t → step host call t ≡ t
  step-closed (append_call ts later type payload) t h = (append-Refused ts later type payload t h).1
  step-closed (checkpoint_call ts) t h = (checkpoint-Refused ts t h).1
  step-closed (finalize_call ts later result) t h = (finalize-Refused ts later result t h).1
  step-closed (fail_call ts later error) t h = (fail-Refused ts later error t h).1

  -- Every operation throws on a finalized or failed trace, and no sequence of calls changes it.
  pub closed-refuses :
      (ts later : String) (type : TraceEventType) (payload : Value) (t : Trace host)
      → IsClosed t
      → Refused t (append host ts later type payload t)
        × Refused t (checkpoint host ts t)
        × Refused t (finalize host ts later payload t)
        × Refused t (fail host ts later payload t)
        × ((calls : List Call) → run host calls t ≡ t)
  closed-refuses ts later type payload t h = (
    append-Refused ts later type payload t h,
    checkpoint-Refused ts t h,
    finalize-Refused ts later payload t h,
    fail-Refused ts later payload t h,
    stays,
  )
    where
      stays : (calls : List Call) → run host calls t ≡ t
      stays [] = refl
      stays (call ∷ calls) = rw (step-closed call t h) (stays calls)

  -- Flags are set by the two closing operations alone.
  checkpoint-flags :
      (ts : String) (t : Trace host)
      → ((checkpoint host ts t).1.finalized ≡ t.finalized)
        × ((checkpoint host ts t).1.failed ≡ t.failed)
  unfolding checkpoint push_event
  checkpoint-flags ts t = ground arith

  append-flags :
      (ts later : String) (type : TraceEventType) (payload : Value) (t : Trace host)
      → ((append host ts later type payload t).1.finalized ≡ t.finalized)
        × ((append host ts later type payload t).1.failed ≡ t.failed)
  unfolding append push_event checkpoint
  append-flags ts later type payload t = ground arith

  close_finalized-eq-ok :
      (r : Outcome host TraceEvent) (root : String) (u : Trace host)
      → close_finalized host r ≡ (ok root, u)
      → (u.finalized ≡ true) × (u.failed ≡ r.1.failed)
  close_finalized-eq-ok (ok e, t) root u h = ground arith
  close_finalized-eq-ok (err e, t) root u h = ground arith

  -- A successful `finalize` finds the trace neither finalized nor failed and sets the one flag.
  finalize-flags :
      (ts later : String) (result : Value) (t u : Trace host) (root : String)
      → finalize host ts later result t ≡ (ok root, u)
      → (u.finalized ≡ true) × (u.failed ≡ false)
  unfolding finalize
  finalize-flags ts later result t u root h = elim (Bool-cases (t.finalized || t.failed)) [
    | inl closed ↦ ground arith
    | inr opened ↦ ground (
      arith,
      append-flags ts later task_result result t,
      close_finalized-eq-ok (append host ts later task_result result t) root u,
    )
  ]

  -- A successful `finalize` leaves a trace that is finalized and not failed, and that no sequence of
  -- calls changes any more.
  pub finalize-closes :
      (ts later : String) (result : Value) (t u : Trace host) (root : String) (calls : List Call)
      → finalize host ts later result t ≡ (ok root, u)
      → (u.finalized ≡ true) × (u.failed ≡ false) × (run host calls u ≡ u)
  finalize-closes ts later result t u root calls h =
      let (on, off) = finalize-flags ts later result t u root h in
      (on, off, (closed-refuses ts later task_result result u (rw on)).4 calls)
