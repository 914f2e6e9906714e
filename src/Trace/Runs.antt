-- ===== src/Trace/Runs.antt =====
-- Sequences of calls on an ExecutionTrace of src/trace/index.ts.
use atel_sdk.Base.{String, ◌≡◌, List, [], ◌∷◌, ok, Option, Bool, length, ℕ}
use atel_sdk.Json.{Value}
use atel_sdk.Identity.{Host, AgentIdentity}
use atel_sdk.Identity.Rotation.{IsSound}
use atel_sdk.Trace.{TraceEventType, Trace, new_trace, checkpoint, append, finalize, fail}
use atel_sdk.Trace.Verify.{verify_chain}
use atel_sdk.Trace.Chain.{verify_chain_iff}
use atel_sdk.Trace.Steps.{
  IsNumbered, IsIntact, new_trace-IsIntact, append-IsIntact, checkpoint-IsIntact, finalize-IsIntact,
  fail-IsIntact,
}

-- One call, with the times it reads from the clock.
pub data Call : Type 0 where
  append_call : String → String → TraceEventType → Value → Call
  checkpoint_call : String → Call
  finalize_call : String → String → Value → Call
  fail_call : String → String → Value → Call

module _ (host : Host) where
  -- The state after a call, which returned or threw.
  abbrev pub step : Call → Trace host → Trace host
  step (append_call ts later type payload) t = (append host ts later type payload t).1
  step (checkpoint_call ts) t = (checkpoint host ts t).1
  step (finalize_call ts later result) t = (finalize host ts later result t).1
  step (fail_call ts later error) t = (fail host ts later error t).1

  -- The caller catches what a call throws and goes on.
  abbrev pub run : List Call → Trace host → Trace host
  run [] t = t
  run (call ∷ calls) t = run calls (step call t)

  step-IsIntact : (call : Call) (t : Trace host) → IsIntact host t → IsIntact host (step call t)
  step-IsIntact (append_call ts later type payload) t h =
      append-IsIntact host ts later type payload t h
  step-IsIntact (checkpoint_call ts) t h = checkpoint-IsIntact host ts t h
  step-IsIntact (finalize_call ts later result) t h = finalize-IsIntact host ts later result t h
  step-IsIntact (fail_call ts later error) t h = fail-IsIntact host ts later error t h

  pub run-IsIntact :
      (calls : List Call) (t : Trace host) → IsIntact host t → IsIntact host (run calls t)
  run-IsIntact [] t h = h
  run-IsIntact (call ∷ calls) t h = run-IsIntact calls (step call t) (step-IsIntact call t h)

  -- A trace of a sound identity verifies without errors after every sequence of calls, those that
  -- throw included: its events are numbered from 0 without a gap, the next number is their count,
  -- and with auto-save its file has a line for each of them in order.
  pub verify_chain-run :
      (calls : List Call) (task_id : String) (a : AgentIdentity host) (interval : Option ℕ)
      (auto_save : Bool)
      → IsSound host a
      → let t = run calls (new_trace host task_id a interval auto_save) in
        (verify_chain host t ≡ ok [])
        × IsNumbered 0 t.events
        × (t.seq ≡ length t.events)
        × (t.auto_save ≡ Bool.true → t.file ≡ t.events)
  verify_chain-run calls task_id a interval auto_save sound =
      let h = run-IsIntact calls _ (new_trace-IsIntact host task_id a interval auto_save sound) in
      ((verify_chain_iff host _).1 h.linked, h.numbered, h.counted, h.saved)
