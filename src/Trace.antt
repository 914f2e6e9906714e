-- ===== src/Trace.antt =====
-- ExecutionTrace of src/trace/index.ts. Each operation takes the times that it reads from the clock
-- and returns its result or error beside the new state. A trace file is the list of its lines' events.
-- `verify` is in Verify, saving and loading in Load.
pub mod Root
pub mod Verify
pub mod Load
pub mod Chain
pub mod Steps
pub mod Runs
pub mod Lifecycle
pub mod Appends
pub mod Files
use atel_sdk.Base.{
  ℕ, zero, suc, ◌+◌, String, Bool, true, false, not, ◌&&◌, ◌||◌, Option, none, some, List, [], ◌∷◌,
  ◌++◌, map, Result, ok, err, ◌>>=◌, concat, leb, ◌==◌, truthy, length, last_or, filter,
  if◌then◌else◌,
}
use atel_sdk.Json.{Value, str, num, obj, end, field, sorted_stringify}
use atel_sdk.Json.Text.{decimal}
use atel_sdk.Identity.{Host, IdentityError, AgentIdentity, sign, verify}
use Root.{simple_merkle_root}

pub data TraceEventType : Type 0 where
  task_accepted tool_call tool_result policy_check policy_violation : TraceEventType
  checkpoint_event task_result task_failed rollback thinking_chain : TraceEventType

abbrev pub type_text : TraceEventType → String
type_text task_accepted = "TASK_ACCEPTED"
type_text tool_call = "TOOL_CALL"
type_text tool_result = "TOOL_RESULT"
type_text policy_check = "POLICY_CHECK"
type_text policy_violation = "POLICY_VIOLATION"
type_text checkpoint_event = "CHECKPOINT"
type_text task_result = "TASK_RESULT"
type_text task_failed = "TASK_FAILED"
type_text rollback = "ROLLBACK"
type_text thinking_chain = "THINKING_CHAIN"

abbrev pub is_checkpoint : TraceEventType → Bool
is_checkpoint checkpoint_event = true
is_checkpoint _ = false

abbrev pub is_tool_call : TraceEventType → Bool
is_tool_call tool_call = true
is_tool_call _ = false

abbrev pub is_task_result : TraceEventType → Bool
is_task_result task_result = true
is_task_result _ = false

abbrev pub is_task_failed : TraceEventType → Bool
is_task_failed task_failed = true
is_task_failed _ = false

pub record TraceEvent : Type 0 where
  pub seq : ℕ
  pub ts : String
  pub type : TraceEventType
  pub task_id : String
  pub payload : Value
  pub prev : String
  pub hash : String
  pub sig : Option String

pub data TraceError : Type 0 where
  append_to_finalized append_to_failed closed_checkpoint : TraceError
  already_finalized finalize_failed fail_finalized already_failed empty_file : TraceError
  signing : IdentityError → TraceError

abbrev pub genesis_prev : String
genesis_prev = "0x00"

abbrev pub last_from : String → List TraceEvent → String
last_from prev [] = prev
last_from prev (e ∷ es) = last_from e.hash es

-- `events.length > 0 ? events[events.length - 1].hash : GENESIS_PREV`
abbrev pub last_hash : List TraceEvent → String
last_hash = last_from genesis_prev

-- How many events of a kind, as getStats counts them.
abbrev pub count_type : (TraceEventType → Bool) → List TraceEvent → ℕ
count_type kind events = length (filter (λ e. kind e.type) events)

abbrev pub has_sig : Option String → Bool
has_sig none = false
has_sig (some s) = truthy s

abbrev pub sig_text : Option String → String
sig_text none = ""
sig_text (some s) = s

module _ (host : Host) where
  open host use {sha256}

  unfoldable pub compute_event_hash : ℕ → String → TraceEventType → Value → String → String
  compute_event_hash seq ts type payload prev =
      let data_hash = sha256 (sorted_stringify payload) in
      sha256 (
        concat (decimal seq) (
          concat "|" (
            concat ts (
              concat "|"
                (concat (type_text type) (concat "|" (concat data_hash (concat "|" prev))))))))

  pub record Trace : Type 0 where
    pub task_id : String
    pub identity : AgentIdentity host
    pub checkpoint_interval : ℕ
    pub auto_save : Bool
    pub events : List TraceEvent
    pub seq : ℕ
    pub finalized : Bool
    pub failed : Bool
    pub since_checkpoint : ℕ
    pub file : List TraceEvent

  unfoldable pub new_trace : String → AgentIdentity host → Option ℕ → Bool → Trace
  new_trace task_id identity interval auto_save = record {
    task_id = task_id;
    identity = identity;
    checkpoint_interval = elim interval [ none ↦ 50 | some n ↦ n ];
    auto_save = auto_save;
    events = [];
    seq = 0;
    finalized = false;
    failed = false;
    since_checkpoint = 0;
    file = [];
  }

  unfoldable pub make_event : Trace → String → TraceEventType → Value → Option String → TraceEvent
  make_event t ts type payload sig = record {
    seq = t.seq;
    ts = ts;
    type = type;
    task_id = t.task_id;
    payload = payload;
    prev = last_hash t.events;
    hash = compute_event_hash t.seq ts type payload (last_hash t.events);
    sig = sig;
  }

  -- events.push, seq++ and the line in the file, with the checkpoint counter as the caller sets it
  unfoldable pub push_event : Trace → TraceEvent → ℕ → Trace
  push_event t event since = record t {
    events = t.events ++ event ∷ [];
    seq = t.seq + 1;
    since_checkpoint = since;
    file = if t.auto_save then t.file ++ event ∷ [] else t.file;
  }

  unfoldable pub checkpoint_data : Trace → Value
  checkpoint_data t = obj (
      field "merkle_root" (str (simple_merkle_root sha256 (map (λ e. e.hash) t.events))) (
        field "event_count" (num (length t.events)) (
          field "tool_calls" (num (count_type is_tool_call t.events))
            (field "last_hash" (str (last_hash t.events)) end))))

  abbrev pub Outcome : Type 0 → Type 0
  Outcome A = Result TraceError A × Trace

  -- The signature is made before the event is pushed, so a throw leaves the trace as it was.
  abbrev signed_checkpoint : Trace → TraceEvent → Result IdentityError String → Outcome TraceEvent
  signed_checkpoint t event (err e) = (err (signing e), t)
  signed_checkpoint t event (ok sig) =
      let signed : TraceEvent = record event { sig = some sig } in
      (ok signed, push_event t signed 0)

  unfoldable pub checkpoint : String → Trace → Outcome TraceEvent
  checkpoint ts t =
      let event = make_event t ts checkpoint_event (checkpoint_data t) none in
      if t.finalized || t.failed
      then (err closed_checkpoint, t)
      else signed_checkpoint t event (sign host (str event.hash) t.identity.secret_key)

  -- A throw of the automatic checkpoint leaves the event of `append` in the trace.
  abbrev after_checkpoint : TraceEvent → Outcome TraceEvent → Outcome TraceEvent
  after_checkpoint event (ok c, t) = (ok event, t)
  after_checkpoint event (err e, t) = (err e, t)

  -- `ts` is the event's time, and `later` that of an automatic checkpoint.
  unfoldable pub append : String → String → TraceEventType → Value → Trace → Outcome TraceEvent
  append ts later type payload t =
      let event = make_event t ts type payload none in
      let pushed = push_event t event (t.since_checkpoint + 1) in
      if t.finalized
      then (err append_to_finalized, t)
      else if t.failed
      then (err append_to_failed, t)
      else if not (is_checkpoint type) && leb pushed.checkpoint_interval pushed.since_checkpoint
      then after_checkpoint event (checkpoint later pushed)
      else (ok event, pushed)

  abbrev close_finalized : Outcome TraceEvent → Outcome String
  close_finalized (ok e, t) = (ok e.hash, record t { finalized = true })
  close_finalized (err e, t) = (err e, t)

  unfoldable pub finalize : String → String → Value → Trace → Outcome String
  finalize ts later result t =
      if t.finalized
      then (err already_finalized, t)
      else if t.failed
      then (err finalize_failed, t)
      else close_finalized (append ts later task_result result t)

  abbrev close_failed : Outcome TraceEvent → Outcome TraceEvent
  close_failed (ok e, t) = (ok e, record t { failed = true })
  close_failed (err e, t) = (err e, t)

  -- `error` is the record given, or `{ error, stack }` of an Error.
  unfoldable pub fail : String → String → Value → Trace → Outcome TraceEvent
  fail ts later error t =
      if t.finalized
      then (err fail_finalized, t)
      else if t.failed
      then (err already_failed, t)
      else close_failed (append ts later task_failed error t)
