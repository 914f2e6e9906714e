-- ===== src/Trace/Load.antt =====
-- `saveToFile` and `loadFromFile` of src/trace/index.ts. A file is the list of its lines' events.
use atel_sdk.Base.{◌+◌, true, false, none, List, [], ◌∷◌, ◌++◌, Result, ok, err, if◌then◌else◌}
use atel_sdk.Identity.{Host, AgentIdentity}
use atel_sdk.Trace.{
  TraceEvent, TraceError, Trace, empty_file, is_task_result, is_task_failed, new_trace,
}

module _ (host : Host) where
  -- One line of loadFromFile's loop.
  unfoldable pub inject : Trace host → TraceEvent → Trace host
  inject t e = record t {
    events = t.events ++ e ∷ [];
    seq = e.seq + 1;
    finalized = if is_task_result e.type then true else t.finalized;
    failed = if is_task_failed e.type then true else t.failed;
  }

  unfoldable pub inject_all : Trace host → List TraceEvent → Trace host
  inject_all t [] = t
  inject_all t (e ∷ es) = inject_all (inject t e) es

  -- loadFromFile, from the events of the file's lines
  unfoldable pub load_from_file :
      List TraceEvent → AgentIdentity host → Result TraceError (Trace host)
  load_from_file [] identity = err empty_file
  load_from_file (e ∷ es) identity =
      ok (inject_all (new_trace host e.task_id identity none false) (e ∷ es))

  -- saveToFile writes a line for each event.
  unfoldable pub save_to_file : Trace host → Trace host
  save_to_file t = record t { file = t.events }
