-- ===== src/Sessions.antt =====
-- Temporary sessions of bin/atel.mjs: the file temp-sessions.json with its cache in memory. Times are
-- in milliseconds. A missing or unreadable file has no sessions; the log is left out.
pub mod Cache
pub mod Budget
use atel_sdk.Base.{
  ℕ, zero, suc, ◌+◌, ◌-◌, ◌*◌, String, Bool, true, false, not, ◌&&◌, Option, none, some, List, [],
  ◌∷◌, ◌++◌, filter, find, length, ltb, leb, ◌==◌, if◌then◌else◌,
}
use atel_sdk.Friends.{text_or}

pub record TempSession : Type 0 where
  pub session_id : String
  pub did : String
  pub status : String
  pub created_at : ℕ
  pub expires_at : ℕ
  pub max_tasks : ℕ
  pub task_count : ℕ
  pub created_by : String
  pub notes : String
  pub last_used_at : Option ℕ

-- The file, and what the cache holds with the time it was read.
pub record SessionStore : Type 0 where
  pub file : List TempSession
  pub cache : Option (List TempSession × ℕ)

-- saveTempSessions writes the file and drops the cache.
unfoldable pub save_temp_sessions : List TempSession → SessionStore → SessionStore
save_temp_sessions sessions store = record { file = sessions; cache = none }

unfoldable pub is_active : ℕ → String → TempSession → Bool
is_active now did s = s.did == did && (s.status == "active") && ltb now s.expires_at

-- `n || fallback`
unfoldable pub number_or : Option ℕ → ℕ → ℕ
number_or none fallback = fallback
number_or (some zero) fallback = fallback
number_or (some (suc n)) fallback = suc n

pub record SessionOptions : Type 0 where
  pub duration_minutes : Option ℕ
  pub max_tasks : Option ℕ
  pub created_by : Option String
  pub notes : Option String

unfoldable pub new_session : String → String → ℕ → SessionOptions → TempSession
new_session session_id did now options = record {
  session_id = session_id;
  did = did;
  status = "active";
  created_at = now;
  expires_at = now + number_or options.duration_minutes 60 * 60 * 1000;
  max_tasks = number_or options.max_tasks 5;
  task_count = 0;
  created_by = text_or options.created_by "manual";
  notes = text_or options.notes "";
  last_used_at = none;
}

abbrev add_unless :
    Option TempSession → TempSession → SessionStore → (Bool × TempSession) × SessionStore
add_unless (some existing) session store = ((false, existing), store)
add_unless none session store =
    ((true, session), save_temp_sessions (store.file ++ session ∷ []) store)

-- addTempSession, with the identifier it makes: whether it made a session, the session, and the store.
unfoldable pub add_temp_session :
    ℕ → String → String → SessionOptions → SessionStore → (Bool × TempSession) × SessionStore
add_temp_session now session_id did options store =
    add_unless (find (is_active now did) store.file) (new_session session_id did now options) store

unfoldable pub clean_expired_temp_sessions : ℕ → SessionStore → ℕ × SessionStore
clean_expired_temp_sessions now store =
    let kept = filter (λ s. not (leb s.expires_at now)) store.file in
    let removed = length store.file - length kept in
    if ltb 0 removed then (removed, save_temp_sessions kept store) else (removed, store)

unfoldable pub remove_temp_session : String → SessionStore → Bool × SessionStore
remove_temp_session session_id store =
    let kept = filter (λ s. not (s.session_id == session_id)) store.file in
    if ltb (length kept) (length store.file)
    then (true, save_temp_sessions kept store)
    else (false, store)

abbrev cached : ℕ → SessionStore → Option (List TempSession × ℕ) → List TempSession × SessionStore
cached now store none = (store.file, record store { cache = some (store.file, now) })
cached now store (some (sessions, read_at)) =
    if ltb now (read_at + 30000)
    then (sessions, store)
    else (store.file, record store { cache = some (store.file, now) })

-- The cache is good for 30 seconds: `now - timestamp < ttl`.
unfoldable pub get_cached_temp_sessions : ℕ → SessionStore → List TempSession × SessionStore
get_cached_temp_sessions now store = cached now store store.cache

unfoldable pub get_active_temp_session :
    ℕ → ℕ → String → SessionStore → Option TempSession × SessionStore
get_active_temp_session read_at now did store =
    let (sessions, after) = get_cached_temp_sessions read_at store in
    (find (is_active now did) sessions, after)

-- The first session with the identifier counts one more task.
unfoldable pub count_task : ℕ → String → List TempSession → List TempSession
count_task now session_id [] = []
count_task now session_id (s ∷ sessions) =
    if s.session_id == session_id
    then record s { task_count = s.task_count + 1; last_used_at = some now } ∷ sessions
    else s ∷ count_task now session_id sessions

abbrev save_if : Option TempSession → List TempSession → SessionStore → SessionStore
save_if none sessions store = store
save_if (some s) sessions store = save_temp_sessions sessions store

unfoldable pub increment_temp_session_task_count : ℕ → String → SessionStore → SessionStore
increment_temp_session_task_count now session_id store =
    save_if (find (λ s. s.session_id == session_id) store.file)
      (count_task now session_id store.file) store
