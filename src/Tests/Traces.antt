-- ===== src/Tests/Traces.antt =====
-- The theorems on traces at runs of the toy host. The trace makes a checkpoint after two events.
use atel_sdk.Base.{◌≡◌, ◌↔◌, refl, String, true, none, some, List, [], ◌∷◌, ok, length}
use atel_sdk.Json.{str}
use atel_sdk.Trace.{
  TraceEvent, Trace, tool_call, task_result, genesis_prev, new_trace, make_event, push_event,
  append, checkpoint, finalize, fail,
}
use atel_sdk.Trace.Verify.{verify_chain}
use atel_sdk.Trace.Chain.{IsLinked, verify_chain_iff}
use atel_sdk.Trace.Steps.{IsNumbered}
use atel_sdk.Trace.Runs.{
  Call, append_call, checkpoint_call, finalize_call, fail_call, run, verify_chain-run,
}
use atel_sdk.Trace.Lifecycle.{Refused, closed-refuses}
use atel_sdk.Tests.{toy, toy_identity, toy_identity-IsSound}

abbrev empty : Trace toy
empty = new_trace toy "t1" toy_identity (some 2) true

abbrev calls : List Call
calls =
    append_call "1" "2" tool_call (str "x")
    ∷ checkpoint_call "3"
    ∷ finalize_call "4" "5" (str "done")
    ∷ fail_call "6" "7" (str "late")
    ∷ []

verify_chain-run_example :
    let t = run toy calls empty in
    (verify_chain toy t ≡ ok [])
    × IsNumbered 0 t.events
    × (t.seq ≡ length t.events)
    × (t.auto_save ≡ true → t.file ≡ t.events)
verify_chain-run_example =
    verify_chain-run toy calls "t1" toy_identity (some 2) true toy_identity-IsSound

verify_chain_iff_example :
    (verify_chain toy empty ≡ ok []) ↔ IsLinked toy toy_identity genesis_prev empty.events
unfolding new_trace
verify_chain_iff_example = verify_chain_iff toy empty

-- One event and no checkpoint yet.
abbrev first : TraceEvent
first = make_event toy empty "1" tool_call (str "x") none

abbrev started : Trace toy
started = push_event toy empty first 1

appended : append toy "1" "2" tool_call (str "x") empty ≡ (ok first, started)
unfolding append new_trace push_event
appended = refl

-- The result is the second event, so a checkpoint follows it.
abbrev finished : Trace toy
finished = (finalize toy "4" "5" (str "done") started).1

abbrev root : String
root = (make_event toy started "4" task_result (str "done") none).hash

closed-refuses_example :
    let t = record empty { failed = true } in
    Refused toy t (append toy "1" "2" tool_call (str "x") t)
    × Refused toy t (checkpoint toy "1" t)
    × Refused toy t (finalize toy "1" "2" (str "x") t)
    × Refused toy t (fail toy "1" "2" (str "x") t)
    × ((more : List Call) → run toy more t ≡ t)
unfolding new_trace
closed-refuses_example =
    closed-refuses toy "1" "2" tool_call (str "x") (record empty { failed = true }) refl
