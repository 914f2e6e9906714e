-- ===== src/Trace/Files.antt =====
-- Saving and loading: `saveToFile` and `loadFromFile` of src/trace/index.ts.
use atel_sdk.Base.{ℕ, ◌+◌, List, [], ◌∷◌}
use atel_sdk.Trace.{TraceEvent, Trace}

abbrev next_seq : ℕ → List TraceEvent → ℕ
next_seq n [] = n
next_seq n (e ∷ es) = next_seq (e.seq + 1) es
