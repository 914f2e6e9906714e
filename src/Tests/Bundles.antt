-- ===== src/Tests/Bundles.antt =====
-- The theorems on proof bundles at the toy host and a trace of one event.
use atel_sdk.Base.{
  ℕ, ◌≡◌, refl, String, true, false, none, some, List, ok, map, length, every_of, includes,
}
use atel_sdk.Json.{str}
use atel_sdk.Identity.{sign, verify}
use atel_sdk.Merkle.{make_tree, upper_layers, get_root}
use atel_sdk.Trace.{Trace, tool_call, genesis_prev, new_trace, append}
use atel_sdk.Trace.Verify.{verify_chain}
use atel_sdk.Trace.Chain.{IsLinked}
use atel_sdk.Trace.Steps.{IsIntact, new_trace-IsIntact, append-IsIntact}
use atel_sdk.Trace.{TraceEvent, make_event, push_event}
use atel_sdk.Proof.{ProofBundle, build_bundle, sign_bundle, unsigned_bundle, signing_text}
use atel_sdk.Proof.Verifier.{report_valid, verify_proof, resolve_executor_public_key}
use atel_sdk.Proof.Complete.{verify_proof-build_bundle}
use atel_sdk.Proof.Sound.{report_valid_sound}
use atel_sdk.Tests.{toy, toy_identity, toy_identity-IsSound, letters}

abbrev empty : Trace toy
empty = new_trace toy "t1" toy_identity none false

abbrev event : TraceEvent
event = make_event toy empty "1" tool_call (str "x") none

abbrev trace : Trace toy
trace = (append toy "1" "2" tool_call (str "x") empty).1

trace-IsIntact : IsIntact toy trace
trace-IsIntact =
    append-IsIntact toy "1" "2" tool_call (str "x") empty
      (new_trace-IsIntact toy "t1" toy_identity none false toy_identity-IsSound)

abbrev bundle : ProofBundle
bundle = record (unsigned_bundle toy "p1" "now" trace trace.identity "p" "c" "r" event.hash true) {
  sig = letters 64;
}

built : build_bundle toy "p1" "now" trace trace.identity "p" "c" "r" ≡ ok bundle
unfolding build_bundle sign_bundle sign append new_trace push_event make_tree upper_layers get_root
    verify_chain atel_sdk.Trace.Verify.verify_events atel_sdk.Trace.Verify.sig_errors make_event
    atel_sdk.Trace.Verify.prev_errors atel_sdk.Trace.Verify.hash_errors
    atel_sdk.Trace.compute_event_hash atel_sdk.Json.Text.decimal atel_sdk.Json.sorted_stringify
    atel_sdk.Json.Text.quote
built = refl

verify_proof-build_bundle_example :
    (report_valid (verify_proof toy bundle (some trace) none) ≡ true)
    × (report_valid (verify_proof toy bundle none none) ≡ true)
verify_proof-build_bundle_example =
    verify_proof-build_bundle toy "p1" "now" trace "p" "c" "r" bundle trace-IsIntact refl refl refl
      built

report_valid_sound_example :
    (pk : ℕ) × (resolve_executor_public_key toy bundle none ≡ some pk)
    × (verify toy (str (signing_text bundle)) bundle.sig pk ≡ ok true)
    × IsLinked toy trace.identity genesis_prev trace.events
    × (length trace.events ≡ bundle.trace_length)
    × ((tree : List (List String)) × (make_tree toy.sha256 (map (λ e. e.hash) trace.events)
          ≡ ok tree)
        × (get_root tree ≡ bundle.trace_root))
    × (every_of (λ c. includes (map (λ e. e.hash) trace.events) c.hash) bundle.checkpoints ≡ true)
report_valid_sound_example =
    report_valid_sound toy bundle trace none verify_proof-build_bundle_example.0
